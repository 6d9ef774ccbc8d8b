-- ===== src/Executor/Finish.antt =====
-- executor.py: the report of a job, and what is stored of it.
use ha_device_links.Prelude.{
  Text, List, [], ◌∷◌, ◌++◌, map, some, none, Bool, false, all, dedup, ◌==◌, list_eq, nat_eq,
  list_ord, nat_ord, if◌then◌else◌,
}
use ha_device_links.Models.{item_link}
use ha_device_links.Storage.{StoredState, JobSummary, JobLinkResult, with_job}
use ha_device_links.Executor.Run.{first_stop}
use ha_device_links.Executor.Types.{
  Op, Job, Write, LinkReport, JobReport, JobStatus, completed, partial, Stop, interrupt,
  stop_status, not_attempted, is_successful, is_applied, outcome_text, job_status_text, report,
  get_op,
}

-- `_mark_not_attempted`
unfoldable pub mark_not_attempted : Stop → Op → Op
mark_not_attempted s op = elim op.outcome [
  | some _ ↦ op
  | none ↦ if op.attempts == 0 then record op { outcome = some (not_attempted s) } else op
]

abbrev pub job_status : Job → JobStatus
job_status j = elim j.stop [
  | some s ↦ stop_status s
  | none ↦ if all (λ (op : Op). is_successful op.outcome) j.ops then completed else partial
]

abbrev pub was_applied : List Op → Write → Bool
was_applied ops w = elim (get_op ops w.op) [ none ↦ false | some op ↦ is_applied op.outcome ]

-- The rules with a write that was done at least once.
unfoldable pub applied_rules : List Op → List Write → List Text
applied_rules ops [] = []
applied_rules ops (w ∷ ws) =
    let rest = applied_rules ops ws in
    elim (item_link w.link).rule_id [
      | none ↦ rest
      | some id ↦ if was_applied ops w then id ∷ rest else rest
    ]

abbrev pub link_result : LinkReport → JobLinkResult
link_result r = record {
  fingerprint = r.fingerprint;
  status = outcome_text r.outcome;
  reason = elim r.reason [ none ↦ none | some d ↦ some d.translation_key ];
}

unfoldable pub summary : Job → JobSummary
unfolding report
summary j = record {
  id = j.id;
  created_at = j.created_at;
  scope = j.scope;
  status = job_status_text (job_status j);
  results = map (λ op. link_result (report op)) j.ops;
}

unfoldable pub job_report : Job → JobReport
unfolding report
job_report j = record {
  id = j.id;
  created_at = j.created_at;
  scope = j.scope;
  status = job_status j;
  snapshot_id = j.snapshot_id;
  results = map report j.ops;
}

-- What `async_note_applied` adds to the stored state.
abbrev pub note_applied : StoredState → List Text → StoredState
note_applied s ids = record s { applied_rule_ids = dedup (s.applied_rule_ids ++ ids) }

-- `_finish`: the report, and the stored state with the rules that were applied and the job.
unfoldable pub finish : StoredState → Job → StoredState × JobReport
unfolding applied_rules summary job_report
finish s j = (with_job (note_applied s (applied_rules j.ops j.writes)) (summary j), job_report j)

-- `_run` when the task that awaits the job is cancelled: the job has stopped, the operations that were
-- not attempted say so, and it is reported as it stands.
unfoldable pub finish_cancelled : StoredState → Job → StoredState × JobReport
unfolding mark_not_attempted finish
finish_cancelled s j =
    let why = first_stop j.stop interrupt in
    finish s (record j { ops = map (mark_not_attempted why) j.ops; stop = some why })
