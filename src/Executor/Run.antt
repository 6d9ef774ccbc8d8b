-- ===== src/Executor/Run.antt =====
-- executor.py `_run` from the semaphore to the reports: the devices of a job side by side.
use ha_device_links.Prelude.{
  Text, Dict, ℕ, zero, suc, List, [], ◌∷◌, ◌++◌, map, Option, some, none, Bool, true, false, not,
  contains, keep, ltb, count, ◌≡◌, list_eq, nat_eq, if◌then◌else◌,
}
use mathlib.Core.Option
use ha_device_links.Models.{DeviceHandle, Plan}
use ha_device_links.Storage.{Snapshot}
use ha_device_links.Coordinator.{Coordinator}
use ha_device_links.Executor.Types.{Job, Write, Stop, LinkOutcome, new_op}
use ha_device_links.Executor.Refuse.{refuse_impossible}
use ha_device_links.Executor.Prepare.{
  resolve_devices, grouped, stale_devices, stale_reason, mark, take_snapshot,
}
use ha_device_links.Executor.Device.{Phase, waiting, finished, Task, Move, Event, begin, act}

-- The job, its devices' coroutines, and every write that was sent to an adapter.
pub record World : Type 0 where
  pub job : Job
  pub tasks : List Task
  pub calls : List Write

abbrev pub get_task : List Task → ℕ → Option Task
get_task [] i = none
get_task (t ∷ ts) zero = some t
get_task (t ∷ ts) (suc i) = get_task ts i

unfoldable pub set_phase : List Task → ℕ → Phase → List Task
set_phase [] i p = []
set_phase (t ∷ ts) zero p = record t { phase = p } ∷ ts
set_phase (t ∷ ts) (suc i) p = t ∷ set_phase ts i p

-- Whether a coroutine is inside the semaphore.
abbrev pub is_active : Task → Bool
is_active t = elim t.phase [ waiting ↦ false | finished ↦ false | _ ↦ true ]

-- The semaphore lets a coroutine in while fewer than `limit` are inside.
abbrev pub is_admitted : ℕ → List Task → Event → Bool
is_admitted limit ts begin = ltb (count is_active ts) limit
is_admitted limit ts _ = true

abbrev pub moved : World → ℕ → Move → World
moved s i m = record {
  job = m.job;
  tasks = set_phase s.tasks i m.phase;
  calls = s.calls ++ m.calls;
}

unfoldable pub deliver_to : Text → World → ℕ → Event → Option Task → Option World
unfolding act set_phase
deliver_to seconds s i e none = none
deliver_to seconds s i e (some t) = Option.map (moved s i) (act seconds t s.job e t.phase)

-- One event for the coroutine at a position.
unfoldable pub deliver : ℕ → Text → World → ℕ → Event → Option World
unfolding deliver_to
deliver limit seconds s i e =
    if is_admitted limit s.tasks e then deliver_to seconds s i e (get_task s.tasks i) else none

abbrev pub first_stop : Option Stop → Stop → Stop
first_stop none why = why
first_stop (some earlier) why = earlier

-- `_stop`: the first request to stop stands.
unfoldable pub stop : Stop → World → World
stop why s = record s { job = record s.job { stop = some (first_stop s.job.stop why) } }

-- What may happen while a job runs, in any order: an event for a coroutine, or a request to stop.
pub data Step (limit : ℕ) (seconds : Text) (s t : World) : Type 0 where
  delivered : (i : ℕ) (e : Event) → deliver limit seconds s i e ≡ some t → Step limit seconds s t
  halted : (why : Stop) → t ≡ stop why s → Step limit seconds s t

pub data Reach (limit : ℕ) (seconds : Text) (s : World) : World → Type 0 where
  here : Reach limit seconds s s
  next : {t u : World} → Reach limit seconds s t → Step limit seconds t u → Reach limit seconds s u

-- The tasks of the devices that are not stale.
unfoldable pub new_tasks : List Text → List (Text × List Write) → List Task
new_tasks stale [] = []
new_tasks stale ((device, ws) ∷ rest) =
    let later = new_tasks stale rest in
    if contains stale device
    then later
    else record { device = device; writes = ws; phase = waiting } ∷ later

-- The operations of the plan, refused and resolved: the devices, and the job before anything is read.
unfoldable pub prepared :
    Coordinator → Plan → List Text → Text → Text → Text → Dict Text DeviceHandle × Job
prepared c plan selected id created_at scope =
    let r = resolve_devices c (refuse_impossible c selected (map new_op plan.items)) in
    (
      r.handles,
      record {
        id = id;
        created_at = created_at;
        scope = scope;
        ops = r.ops;
        writes = r.writes;
        devices_in_flight = [];
        snapshot_id = none;
        stop = none;
      },
    )

abbrev pub snapshot_of : Coordinator → List Text → Dict Text DeviceHandle → Job → Option Snapshot
snapshot_of c stale handles j =
    take_snapshot c j (keep (λ (e : Text × DeviceHandle). not (contains stale e.0)) handles)

-- The job when the coroutines are made, after the devices were read again: `c` is the coordinator
-- then, and `fresh` the plan that it works out.
unfoldable pub launched : Coordinator → Plan → Plan → Dict Text DeviceHandle → Job → World
unfolding new_tasks
launched c plan fresh handles j =
    let by_device = grouped j.writes in
    let stale = stale_devices plan fresh j.ops by_device in
    let job = mark stale by_device LinkOutcome.stale_plan (stale_reason c) j in
    record {
      job = record job {
        snapshot_id = Option.map (λ (s : Snapshot). s.id) (snapshot_of c stale handles j);
      };
      tasks = new_tasks stale by_device;
      calls = [];
    }
