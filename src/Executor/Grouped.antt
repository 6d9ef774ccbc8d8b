-- ===== src/Executor/Grouped.antt =====
-- executor.py: what holds of a job's writes holds of the writes of its devices.
use ha_device_links.Prelude.{
  Text, Dict, List, [], ◌∷◌, ◌++◌, Option, some, none, ◌≡◌, refl, inl, inr, Bool-cases, All,
  All-append, mem-All, contains, get, get-mem, put, put-All, list_eq, nat_eq,
}
use ha_device_links.Models.{DeviceHandle, identity, Plan, backend_eq}
use ha_device_links.Coordinator.{Coordinator}
use ha_device_links.Executor.Types.{Job, Write}
use ha_device_links.Executor.Prepare.{source_of, writes_of, group_writes, grouped, stale_devices}
use ha_device_links.Executor.Run.{new_tasks, launched}
use ha_device_links.Executor.Calls.{InTask, InWorld}

module _ (P : Write → Type 0) where
  abbrev InGroups : List (Text × List Write) → Type 0
  InGroups groups = All (λ (e : Text × List Write). All P e.1) groups

  writes_of-InGroups :
      (g : Dict Text (List Write)) (device : Text) → InGroups g → All P (writes_of g device)
  writes_of-InGroups g device h = writes_at (get g device) refl
    where
      writes_at :
          (o : Option (List Write))
          → get g device ≡ o
          → All P (elim o as (λ x. List Write) [ none ↦ [] | some ws ↦ ws ])
      writes_at none e = tt
      writes_at (some ws) e =
          mem-All (λ (e : Text × List Write). All P e.1) g h (get-mem g device e)

  group_writes-InGroups :
      (g : Dict Text (List Write)) (ws : List Write)
      → InGroups g
      → All P ws
      → InGroups (group_writes g ws)
  unfolding group_writes
  group_writes-InGroups g [] h k = h
  group_writes-InGroups g (w ∷ ws) h k =
      let device = identity (source_of w.link) in
      group_writes-InGroups (put g device (writes_of g device ++ (w ∷ []))) ws
        (put-All (λ (e : Text × List Write). All P e.1) g device (writes_of g device ++ (w ∷ []))
          (All-append P (writes_of g device) (w ∷ []) (writes_of-InGroups g device h) (k.0, tt)) h)
        k.1

  new_tasks-InTask :
      (stale : List Text) (groups : List (Text × List Write))
      → InGroups groups
      → All (InTask P) (new_tasks stale groups)
  unfolding new_tasks
  new_tasks-InTask stale [] h = tt
  new_tasks-InTask stale ((device, ws) ∷ rest) h = elim (Bool-cases (contains stale device)) [
    | inl old ↦ rw old (new_tasks-InTask stale rest h.1)
    | inr fresh ↦ rw fresh ((h.0, tt), new_tasks-InTask stale rest h.1)
  ]

  pub launched-InWorld :
      (c : Coordinator) (plan fresh : Plan) (handles : Dict Text DeviceHandle) (j : Job)
      → All P j.writes
      → InWorld P (launched c plan fresh handles j)
  unfolding launched grouped
  launched-InWorld c plan fresh handles j h = (
    new_tasks-InTask (stale_devices plan fresh j.ops (group_writes [] j.writes))
        (group_writes [] j.writes) (group_writes-InGroups [] j.writes tt h),
    tt,
  )
