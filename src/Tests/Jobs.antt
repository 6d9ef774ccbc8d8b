-- ===== src/Tests/Jobs.antt =====
-- A job of one link to add, one to remove and one to leave, and the results on jobs at it.
use ha_device_links.Prelude.{
  text, ℕ, ◌+◌, ◌*◌, ◌≤◌, List, [], ◌∷◌, ◌≡◌, refl, arith, map, Option, none, some, true, false,
  All, head, count, ◌==◌, nat_eq,
}
use ha_device_links.Models.{zwave, identity, Plan, observed_link, backend_discrete, op_discrete}
use ha_device_links.Planner.{add_item, remove_item}
use ha_device_links.Backends.{slot, LinkResultStatus, ObservedDevice, status_discrete}
use ha_device_links.Storage.{
  StoredState, Snapshot, JobSummary, with_job, with_snapshot, max_jobs, max_snapshots,
}
use ha_device_links.Coordinator.{Coordinator, backend_for, observed_for}
use ha_device_links.Executor.{
  Job, Write, World, Reach, here, next, delivered, halted, deliver, stop, cancel, interrupt, begin,
  answer, answered, Event, timed_out, wake, read, Task, finished, prepared, launched, finish,
  finish_cancelled, deliver_to, act, set_phase, update_op, next_write, write_from, after_last,
  after_result, pause_with, after_pause, verify, verify_each, verified, verified_as, new_tasks,
  grouped, group_writes, stale_devices, is_stale_write, current_from, resolve_devices, resolve_from,
  resolve_op, refuse_impossible, refuse_op, refusal, refusal_with, refusal_of, is_system,
  protects_slot, mark, mark_writes, mark_write, call_result, LinkOutcome, LinkReport, Op, new_op,
  job_report,
}
use ha_device_links.Executor.Progress.{write_count}
use ha_device_links.Executor.Attempts.{Reach-bounded}
use ha_device_links.Executor.Liveness.{Reach-finished, IsSmooth}
use ha_device_links.Executor.Protected.{IsAllowed, Reach-IsAllowed}
use ha_device_links.Executor.Stopping.{Reach-stop}
use ha_device_links.Executor.Reported.{subject, item_subject, finish-Reach}
use ha_device_links.Executor.Verified.{IsReadBack, verify-IsReadBack}
use ha_device_links.Storage.Bounds.{IsHistory, with_job-IsHistory}
use ha_device_links.Tests.Runs.{compiler}
use ha_device_links.Tests.Samples.{switch, link, owned, foreign, lifeline}

abbrev pub empty_state : StoredState
empty_state = record {
  profiles = [];
  active_profile_id = none;
  ignored_unmanaged = [];
  applied_rule_ids = [];
  snapshots = [];
  jobs = [];
}

abbrev pub switch_read : ObservedDevice
switch_read = record {
  handle = switch;
  links = lifeline ∷ owned ∷ foreign ∷ [];
  settings = [];
  deep_verified = true;
  deep_verify_timed_out = false;
  deep_verify_skipped_reason = none;
}

abbrev pub known : Coordinator
known = record {
  backends = (zwave, slot) ∷ [];
  state = empty_state;
  handles = (identity switch, switch) ∷ [];
  capabilities = [];
  observed = (identity switch, switch_read) ∷ [];
  unavailable = [];
  compiled = [];
  owners = [];
  desired = [];
  pending = [];
  flush_armed = false;
  backend_available = [];
  last_error = none;
  held = [];
  hybrid_allowed = false;
}

abbrev plan : Plan
plan = record {
  token = b't' ∷ [];
  items = add_item link ∷ remove_item owned ∷ remove_item foreign ∷ remove_item lifeline ∷ [];
  unmanaged = [];
  unchanged_count = 0;
}

abbrev start : World
start =
    launched known plan plan (prepared known plan [] [] [] []).0 (prepared known plan [] [] [] []).1

executor : Unit {0}
unfolding compiler deliver deliver_to act set_phase update_op next_write write_from after_last
    after_result pause_with after_pause verify verify_each verified verified_as new_tasks grouped
    group_writes stale_devices is_stale_write current_from resolve_devices resolve_from resolve_op
    refuse_impossible refuse_op refusal refusal_with refusal_of is_system protects_slot mark
    mark_writes mark_write call_result prepared launched stop finish job_report count backend_for
    observed_for backend_discrete status_discrete op_discrete
executor = tt

abbrev world_of : Option World → World
world_of (some s) = s
world_of none = start

abbrev begun : World
begun = world_of (deliver 2 [] start 0 begin)

begun-delivered : deliver 2 [] start 0 begin ≡ some begun
unfolding executor
begun-delivered = refl

abbrev answer_of : LinkResultStatus → Event
answer_of status = answer (answered (record { status = status; reason = none; raw_error = none }))

-- A first answer, a failure and a retry, and the read that verifies: the link to add is not there.
abbrev run_of : World → List Event → World
run_of s [] = s
run_of s (e ∷ es) = run_of (world_of (deliver 2 [] s 0 e)) es

outcomes :
    map {B = LinkOutcome × ℕ}
      (λ (r : LinkReport). (r.outcome, r.attempts))
      (job_report
        (run_of begun (
          answer_of LinkResultStatus.applied
          ∷ answer timed_out
          ∷ wake
          ∷ answer_of LinkResultStatus.applied
          ∷ read (some switch_read) []
          ∷ [])).job).results
    ≡ (LinkOutcome.unverified, 1)
      ∷ (LinkOutcome.unverified, 2)
      ∷ (LinkOutcome.blocked, 0)
      ∷ (LinkOutcome.blocked, 0)
      ∷ []
unfolding executor
outcomes = refl

Reach-bounded_example : (1 ≤ 6 * 2 + 2 * 1) × (count (λ (w : Write). w.op == 0) begun.calls ≤ 3)
unfolding executor write_count
Reach-bounded_example =
    Reach-bounded {limit = 2} {seconds = []} known known plan plan [] [] [] []
      (next here (delivered 0 begin begun-delivered)) 0

Reach-finished_example :
    (u : World) × (q : Reach 2 [] begun u) × IsSmooth q
    × All (λ (t : Task). t.phase ≡ finished) u.tasks
Reach-finished_example = Reach-finished 2 [] begun (omega arith)

Reach-IsAllowed_example : All (IsAllowed known plan []) begun.calls
Reach-IsAllowed_example =
    Reach-IsAllowed {limit = 2} {seconds = []} known known plan plan [] [] [] []
      (next here (delivered 0 begin begun-delivered))

Reach-stop_example :
    ((stop interrupt (stop cancel begun)).job.stop ≡ some cancel)
    × ((stop interrupt (stop cancel begun)).calls ≡ begun.calls)
unfolding executor
Reach-stop_example =
    Reach-stop {limit = 2} {seconds = []} {s = stop cancel begun} cancel
      (next here (halted interrupt refl)) refl

finish-Reach_example :
    (map subject (finish empty_state begun.job).1.results ≡ map item_subject plan.items)
    × (map subject (finish_cancelled empty_state begun.job).1.results ≡ map item_subject plan.items)
finish-Reach_example =
    finish-Reach {limit = 2} {seconds = []} known known plan plan [] [] [] [] empty_state
      (next here (delivered 0 begin begun-delivered))

abbrev to_remove : Write
to_remove = record { op = 1; link = observed_link foreign }

-- The operation that removed a link which the read of an emptied device no longer shows.
abbrev removed : Op
removed = record (new_op (remove_item foreign)) { outcome = some LinkOutcome.applied; attempts = 1 }

abbrev confirmed : Op
confirmed = record removed { verified_at = some (text "now") }

abbrev emptied : ObservedDevice
emptied = record switch_read { links = [] }

abbrev attempted : Job
attempted = record begun.job { ops = new_op (add_item link) ∷ removed ∷ [] }

verify-IsReadBack_example : IsReadBack (some emptied) (text "now") to_remove confirmed
unfolding executor
verify-IsReadBack_example =
    verify-IsReadBack (some emptied) (text "now") (to_remove ∷ []) attempted to_remove confirmed
      (refl, tt) (head refl) refl refl

abbrev snapshot : Snapshot
snapshot = record { id = text "s"; created_at = []; reason = []; devices = []; links = [] }

abbrev pub old_job : JobSummary
old_job = record { id = text "old"; created_at = []; scope = []; status = []; results = [] }

abbrev new_job : JobSummary
new_job = record { id = text "new"; created_at = []; scope = []; status = []; results = [] }

abbrev used_state : StoredState
used_state = record empty_state { jobs = old_job ∷ [] }

with_job-IsHistory_example :
    IsHistory max_jobs used_state.jobs new_job (with_job used_state new_job).jobs
    × IsHistory max_snapshots used_state.snapshots snapshot
        (with_snapshot used_state snapshot).snapshots
with_job-IsHistory_example = with_job-IsHistory used_state new_job snapshot
