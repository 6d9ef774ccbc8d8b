-- ===== src/Executor/Types.antt =====
-- executor.py: the outcomes, the job and its operations.
use ha_device_links.Prelude.{
  Text, text, ℕ, zero, suc, List, [], ◌∷◌, Option, some, none, Bool, true, false, list_eq, nat_eq,
}
use ha_device_links.Models.{Diagnostic, PlanItem, PlanOp, ItemLink, item_link, fingerprint}
use ha_device_links.Backends.{LinkResultStatus}

pub data JobStatus : Type 0 where
  completed partial cancelled interrupted : JobStatus

pub data LinkOutcome : Type 0 where
  applied already_present unverified unconfirmed pending_wakeup failed blocked stale_plan cancelled
        interrupted :
      LinkOutcome

unfoldable pub outcome_text : LinkOutcome → Text
outcome_text LinkOutcome.applied = text "applied"
outcome_text LinkOutcome.already_present = text "already_present"
outcome_text LinkOutcome.unverified = text "unverified"
outcome_text LinkOutcome.unconfirmed = text "unconfirmed"
outcome_text LinkOutcome.pending_wakeup = text "pending_wakeup"
outcome_text LinkOutcome.failed = text "failed"
outcome_text LinkOutcome.blocked = text "blocked"
outcome_text LinkOutcome.stale_plan = text "stale_plan"
outcome_text LinkOutcome.cancelled = text "cancelled"
outcome_text LinkOutcome.interrupted = text "interrupted"

unfoldable pub job_status_text : JobStatus → Text
job_status_text completed = text "completed"
job_status_text partial = text "partial"
job_status_text JobStatus.cancelled = text "cancelled"
job_status_text JobStatus.interrupted = text "interrupted"

-- `_OUTCOME_OF`
abbrev pub outcome_of : LinkResultStatus → LinkOutcome
outcome_of LinkResultStatus.applied = LinkOutcome.applied
outcome_of LinkResultStatus.already_present = LinkOutcome.already_present
outcome_of LinkResultStatus.pending_wakeup = LinkOutcome.pending_wakeup
outcome_of LinkResultStatus.failed = LinkOutcome.failed
outcome_of LinkResultStatus.blocked = LinkOutcome.blocked

-- Membership in `_VERIFIABLE`, `_SUCCESSFUL` and `_APPLIED_AT_LEAST_ONCE`
abbrev pub is_verifiable : Option LinkOutcome → Bool
is_verifiable (some LinkOutcome.applied) = true
is_verifiable (some LinkOutcome.already_present) = true
is_verifiable _ = false

abbrev pub is_successful : Option LinkOutcome → Bool
is_successful (some LinkOutcome.applied) = true
is_successful (some LinkOutcome.already_present) = true
is_successful (some LinkOutcome.pending_wakeup) = true
is_successful _ = false

abbrev pub is_applied : Option LinkOutcome → Bool
is_applied (some LinkOutcome.applied) = true
is_applied (some LinkOutcome.already_present) = true
is_applied (some LinkOutcome.unverified) = true
is_applied (some LinkOutcome.unconfirmed) = true
is_applied _ = false

-- How a job was asked to stop, if it was: the statuses that `_NOT_ATTEMPTED` has.
pub data Stop : Type 0 where
  cancel interrupt : Stop

abbrev pub stop_status : Stop → JobStatus
stop_status cancel = JobStatus.cancelled
stop_status interrupt = JobStatus.interrupted

-- `_NOT_ATTEMPTED`
abbrev pub not_attempted : Stop → LinkOutcome
not_attempted cancel = LinkOutcome.cancelled
not_attempted interrupt = LinkOutcome.interrupted

pub record LinkReport : Type 0 where
  pub fingerprint : Text
  pub device_identity : Text
  pub op : PlanOp
  pub outcome : LinkOutcome
  pub reason : Option Diagnostic
  pub raw_error : Option Text
  pub attempts : ℕ
  pub verified_at : Option Text

pub record JobReport : Type 0 where
  pub id : Text
  pub created_at : Text
  pub scope : Text
  pub status : JobStatus
  pub snapshot_id : Option Text
  pub results : List LinkReport

-- `_Op`
pub record Op : Type 0 where
  pub item : PlanItem
  pub outcome : Option LinkOutcome
  pub reason : Option Diagnostic
  pub raw_error : Option Text
  pub attempts : ℕ
  pub verified_at : Option Text

abbrev pub new_op : PlanItem → Op
new_op item = record {
  item = item;
  outcome = none;
  reason = none;
  raw_error = none;
  attempts = 0;
  verified_at = none;
}

abbrev pub link_fingerprint : Option ItemLink → Text
link_fingerprint none = []
link_fingerprint (some l) = fingerprint (item_link l)

abbrev pub outcome_or_failed : Option LinkOutcome → LinkOutcome
outcome_or_failed none = LinkOutcome.failed
outcome_or_failed (some o) = o

-- `_Op.report`
unfoldable pub report : Op → LinkReport
report op = record {
  fingerprint = link_fingerprint op.item.link;
  device_identity = op.item.device_identity;
  op = op.item.op;
  outcome = outcome_or_failed op.outcome;
  reason = op.reason;
  raw_error = op.raw_error;
  attempts = op.attempts;
  verified_at = op.verified_at;
}

-- `_Write`: the position of its `_Op` among the job's, with which it shares it, and the link.
pub record Write : Type 0 where
  pub op : ℕ
  pub link : ItemLink

-- `_Job`, less the event that waiters wait for
pub record Job : Type 0 where
  pub id : Text
  pub created_at : Text
  pub scope : Text
  pub ops : List Op
  pub writes : List Write
  pub devices_in_flight : List Text
  pub snapshot_id : Option Text
  pub stop : Option Stop

-- The operation at a position, and a write to it.
abbrev pub get_op : List Op → ℕ → Option Op
get_op [] i = none
get_op (o ∷ ops) zero = some o
get_op (o ∷ ops) (suc i) = get_op ops i

unfoldable pub update_op : List Op → ℕ → (Op → Op) → List Op
update_op [] i f = []
update_op (o ∷ ops) zero f = f o ∷ ops
update_op (o ∷ ops) (suc i) f = o ∷ update_op ops i f

abbrev pub set_op : Job → ℕ → (Op → Op) → Job
set_op j i f = record j { ops = update_op j.ops i f }
