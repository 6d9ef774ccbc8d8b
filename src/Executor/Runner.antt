-- ===== src/Executor/Runner.antt =====
-- executor.py: the runner, which admits one job at a time and none once it is shut down.
use ha_device_links.Prelude.{
  Text, text, ℕ, List, [], ◌∷◌, ◌++◌, map, Option, some, none, Bool, true, false, is_some, count,
  dedup, sort, join, length, list_eq, nat_eq, list_ord, nat_ord,
}
use ha_device_links.Models.{item_link, Plan}
use ha_device_links.Coordinator.{PlanScope}
use ha_device_links.Executor.Types.{Op, Job, Stop, cancel, interrupt, new_op}
use ha_device_links.Executor.Run.{first_stop}

pub record JobProgress : Type 0 where
  pub id : Text
  pub total : ℕ
  pub completed : ℕ
  pub devices_in_flight : List Text

-- Of `JobRunner` what changes.
pub record Runner : Type 0 where
  pub job : Option Job
  pub shut_down : Bool

-- `JobRunner.progress`
unfoldable pub progress : Option Job → Option JobProgress
progress none = none
progress (some j) = some (record {
  id = j.id;
  total = length j.ops;
  completed = count (λ (op : Op). is_some op.outcome) j.ops;
  devices_in_flight = sort j.devices_in_flight;
})

abbrev pub with_rule_id : Option Text → List Text → List Text
with_rule_id none ids = ids
with_rule_id (some id) ids = id ∷ ids

abbrev pub op_rule_id : Op → Option Text
op_rule_id op = elim op.item.link [ none ↦ none | some l ↦ (item_link l).rule_id ]

unfoldable pub rule_ids_of : List Op → List Text
rule_ids_of [] = []
rule_ids_of (op ∷ ops) = with_rule_id (op_rule_id op) (rule_ids_of ops)

-- `JobRunner.active_rule_ids`
unfoldable pub active_rule_ids : Option Job → List Text
unfolding rule_ids_of
active_rule_ids none = []
active_rule_ids (some j) = dedup (rule_ids_of j.ops)

abbrev pub scope_part : Text → List Text → List Text
scope_part name [] = []
scope_part name (i ∷ is) = (name ++ join b',' (sort (i ∷ is))) ∷ []

abbrev pub or_all : List Text → Text
or_all [] = text "all"
or_all (p ∷ ps) = join b' ' (p ∷ ps)

-- `_describe`
unfoldable pub describe : Option PlanScope → Text
describe none = text "all"
describe (some scope) = or_all (
    scope_part (text "rules:") scope.rule_ids
    ++ scope_part (text "devices:") scope.device_identities)

-- How `async_apply` begins: it raises `RunnerShutdownError` or `JobRunningError`, or runs a job.
pub data Admission : Type 0 where
  after_shutdown : Admission
  already_running : Admission
  begun : (runner : Runner) (job : Job) → Admission

-- A job that nothing was done for yet
abbrev pub new_job : Plan → Text → Text → Text → Job
new_job plan id created_at scope = record {
  id = id;
  created_at = created_at;
  scope = scope;
  ops = map new_op plan.items;
  writes = [];
  devices_in_flight = [];
  snapshot_id = none;
  stop = none;
}

unfoldable pub async_apply : Runner → Plan → Text → Text → Option PlanScope → Admission
unfolding describe
async_apply r plan id created_at scope = elim r.shut_down [
  | true ↦ after_shutdown
  | false ↦ elim r.job [
    | some j ↦ already_running
    | none ↦
        let j = new_job plan id created_at (describe scope) in begun (record r { job = some j }) j
  ]
]

-- The `finally` of `async_apply`
unfoldable pub end_apply : Runner → Runner
end_apply r = record r { job = none }

unfoldable pub stop_job : Stop → Option Job → Option Job
stop_job why none = none
stop_job why (some j) = some (record j { stop = some (first_stop j.stop why) })

-- `_stop`, with the status that it returns
unfoldable pub stop_runner : Stop → Runner → Runner
unfolding stop_job
stop_runner why r = record r { job = stop_job why r.job }

-- `async_cancel`, and `async_shutdown` up to its wait for the job
unfoldable pub async_cancel : Runner → Runner
unfolding stop_runner
async_cancel r = stop_runner cancel r

unfoldable pub async_shutdown : Runner → Runner
unfolding stop_runner
async_shutdown r = stop_runner interrupt (record r { shut_down = true })
