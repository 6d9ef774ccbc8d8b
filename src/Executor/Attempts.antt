-- ===== src/Executor/Attempts.antt =====
-- executor.py: each operation of a plan has one write, which is sent three times at most.
use ha_device_links.Prelude.{
  Text, Dict, ℕ, suc, ◌+◌, ◌*◌, ◌≤◌, List, [], ◌∷◌, ◌++◌, map, Option, some, none, Bool, ◌≡◌, inl,
  inr, arith, Bool-cases, count, count-append, leb, contains, get, put, is_some, ◌==◌, length,
  list_eq, nat_eq, if◌then◌else◌,
}
use ha_device_links.Models.{DeviceHandle, identity, ItemLink, Plan}
use ha_device_links.Coordinator.{Coordinator, backend_for}
use ha_device_links.Executor.Types.{Job, Op, Write, new_op}
use ha_device_links.Executor.Refuse.{refuse_impossible}
use ha_device_links.Executor.Prepare.{
  Resolved, source_of, resolve_op, resolve_from, resolve_devices, group_writes, grouped,
  stale_devices,
}
use ha_device_links.Executor.Run.{World, new_tasks, prepared, launched, Reach}
use ha_device_links.Executor.Progress.{write_count, writes_of, deliveries, launched-bounded}

-- The writes of all groups.
unfoldable flat : Dict Text (List Write) → List Write
flat [] = []
flat ((device, ws) ∷ groups) = ws ++ flat groups

abbrev or_nothing : Option (List Write) → List Write
or_nothing o = elim o [ none ↦ [] | some ws ↦ ws ]

module _ (p : Write → Bool) where
  count-flat-put :
      (g : Dict Text (List Write)) (device : Text) (ws : List Write)
      → count p (flat (put g device ws)) + count p (or_nothing (get g device))
        ≡ count p (flat g) + count p ws
  unfolding put get flat count
  count-flat-put [] device ws = omega (arith, count-append p ws [])
  count-flat-put ((i, vs) ∷ g) device ws = elim (Bool-cases (i == device)) [
    | inl same ↦ rw same (omega (arith, count-append p ws (flat g), count-append p vs (flat g)))
    | inr other ↦ rw other (
        omega (
          arith,
          count-append p vs (flat (put g device ws)),
          count-append p vs (flat g),
          count-flat-put g device ws,
        ))
  ]

  count-group_writes :
      (g : Dict Text (List Write)) (ws : List Write)
      → count p (flat (group_writes g ws)) ≡ count p (flat g) + count p ws
  unfolding group_writes count
  count-group_writes g [] = omega arith
  count-group_writes g (w ∷ ws) =
      let device = identity (source_of w.link) in
      let before = or_nothing (get g device) in
      let after = before ++ (w ∷ []) in
      omega (
        arith,
        count-flat-put g device after,
        count-append p before (w ∷ []),
        count-group_writes (put g device after) ws,
      )

  count-new_tasks :
      (stale : List Text) (groups : Dict Text (List Write))
      → count p (writes_of (new_tasks stale groups)) ≤ count p (flat groups)
  unfolding new_tasks writes_of flat count
  count-new_tasks stale [] = omega arith
  count-new_tasks stale ((device, ws) ∷ rest) = elim (Bool-cases (contains stale device)) [
    | inl old ↦ rw old (omega (arith, count-new_tasks stale rest, count-append p ws (flat rest)))
    | inr fresh ↦ rw fresh (
        omega (
          arith,
          count-new_tasks stale rest,
          count-append p ws (flat rest),
          count-append p ws (writes_of (new_tasks stale rest)),
        ))
  ]

  count-launched :
      (c : Coordinator) (plan fresh : Plan) (handles : Dict Text DeviceHandle) (j : Job)
      → count p (writes_of (launched c plan fresh handles j).tasks) ≤ count p j.writes
  unfolding launched grouped flat count
  count-launched c plan fresh handles j =
      let by_device = group_writes [] j.writes in
      omega (
        arith,
        count-new_tasks (stale_devices plan fresh j.ops by_device) by_device,
        count-group_writes [] j.writes,
      )

-- The write of an operation is the one with its position.
abbrev is_of : ℕ → Write → Bool
is_of i w = w.op == i

count-resolve_op :
    (c : Coordinator) (i k : ℕ) (op : Op) (l : Option ItemLink) (r : Resolved)
    → count (is_of i) (resolve_op c k op l r).writes
      ≤ count (is_of i) r.writes + (if k == i then 1 else 0)
unfolding resolve_op count
count-resolve_op c i k op none r = omega arith
count-resolve_op c i k op (some l) r = elim (Bool-cases (is_some op.outcome)) [
  | inl settled ↦ rw settled (omega arith)
  | inr waits ↦ elim (Bool-cases (is_some (backend_for c (source_of l)))) [
    | inr unloaded ↦ rw (waits, unloaded) (omega arith)
    | inl loaded ↦
        rw (waits, loaded)
          (omega (arith, count-append (is_of i) r.writes (record { op = k; link = l } ∷ [])))
  ]
]

count-resolve_from :
    (c : Coordinator) (i k : ℕ) (ops : List Op) (r : Resolved)
    → count (is_of i) (resolve_from c k ops r).writes
      ≤ count (is_of i) r.writes + (if leb k i then 1 else 0)
unfolding resolve_from
count-resolve_from c i k [] r = omega arith
count-resolve_from c i k (op ∷ ops) r =
    let one = count-resolve_op c i k op op.item.link r in
    let later = count-resolve_from c i (suc k) ops (resolve_op c k op op.item.link r) in
    grind (arith, one, later)

-- From the launch of a job on, and whatever the adapters answer and whenever the job is stopped: at
-- most six events are delivered for each write and two for each device, and at most three calls are
-- made for each operation of the plan.
pub Reach-bounded :
    {limit : ℕ} {seconds : Text} {t : World} (before after : Coordinator) (plan fresh : Plan)
    (selected : List Text) (id created_at scope : Text)
    (r : Reach limit seconds
      (launched after plan fresh
        (prepared before plan selected id created_at scope).0
        (prepared before plan selected id created_at scope).1)
      t)
    (i : ℕ)
    → (deliveries r
        ≤ 6
            * write_count
                (launched after plan fresh
                  (prepared before plan selected id created_at scope).0
                  (prepared before plan selected id created_at scope).1).tasks
          + 2
            * length
                (launched after plan fresh
                  (prepared before plan selected id created_at scope).0
                  (prepared before plan selected id created_at scope).1).tasks)
      × (count (λ (w : Write). w.op == i) t.calls ≤ 3)
unfolding prepared resolve_devices count
Reach-bounded before after plan fresh selected id created_at scope r i =
    let (handles, j) = prepared before plan selected id created_at scope in
    let ops = refuse_impossible before selected (map new_op plan.items) in
    let (events, calls) = launched-bounded after plan fresh handles j (is_of i) r in
    let few = count-launched (is_of i) after plan fresh handles j in
    let once = count-resolve_from before i 0 ops (record { handles = []; writes = []; ops = [] }) in
    (events, grind (arith, calls, few, once))
