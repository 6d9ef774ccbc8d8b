-- ===== src/Executor/Prepare.antt =====
-- executor.py: the devices of a job, the check for staleness, the snapshot.
use ha_device_links.Prelude.{
  Text, text, Dict, ℕ, suc, List, [], ◌∷◌, ◌++◌, Option, some, none, Bool, false, not, any, get,
  set_default, put, keys, sort_by, keep, is_some, ◌==◌, list_eq, nat_eq, option_eq, list_ord,
  nat_ord, if◌then◌else◌,
}
use ha_device_links.Models.{
  Diagnostic, DeviceHandle, identity, backend_text, ObservedLink, fingerprint, ItemLink, item_link,
  PlanItem, Plan, PlanOp, op_eq,
}
use ha_device_links.Storage.{Snapshot}
use ha_device_links.Coordinator.{Coordinator, backend_for, observed_for, is_available}
use ha_device_links.Executor.Types.{Op, Job, Write, LinkOutcome, get_op, set_op}
use ha_device_links.Executor.Refuse.{message, about}

abbrev pub source_of : ItemLink → DeviceHandle
source_of l = (item_link l).source

-- The handles and the writes that `_resolve_devices` has found. The adapter of a device is the
-- coordinator's for the handle's backend, so the model keeps the handle alone.
pub record Resolved : Type 0 where
  pub handles : Dict Text DeviceHandle
  pub writes : List Write
  pub ops : List Op

unfoldable pub backend_missing : ItemLink → Op → Op
backend_missing l op = record op {
  outcome = some LinkOutcome.blocked;
  reason = some (
      message (text "backend_not_loaded")
        ((text "backend", backend_text (item_link l).backend) ∷ about (item_link l)));
}

-- One round of the loop, for an operation at a position that may still be written.
unfoldable pub resolve_op : Coordinator → ℕ → Op → Option ItemLink → Resolved → Resolved
unfolding backend_missing
resolve_op c i op none r = record r { ops = r.ops ++ (op ∷ []) }
resolve_op c i op (some l) r =
    if is_some op.outcome
    then record r { ops = r.ops ++ (op ∷ []) }
    else if is_some (backend_for c (source_of l))
    then record {
      handles = set_default r.handles (identity (source_of l)) (source_of l);
      writes = r.writes ++ (record { op = i; link = l } ∷ []);
      ops = r.ops ++ (op ∷ []);
    }
    else record r { ops = r.ops ++ (backend_missing l op ∷ []) }

unfoldable pub resolve_from : Coordinator → ℕ → List Op → Resolved → Resolved
unfolding resolve_op
resolve_from c i [] r = r
resolve_from c i (op ∷ ops) r = resolve_from c (suc i) ops (resolve_op c i op op.item.link r)

-- `_resolve_devices`
unfoldable pub resolve_devices : Coordinator → List Op → Resolved
unfolding resolve_from
resolve_devices c ops = resolve_from c 0 ops (record { handles = []; writes = []; ops = [] })

abbrev pub writes_of : Dict Text (List Write) → Text → List Write
writes_of grouped device = elim (get grouped device) [ none ↦ [] | some ws ↦ ws ]

-- `grouped.setdefault(identity, []).append(write)` for each write
unfoldable pub group_writes : Dict Text (List Write) → List Write → Dict Text (List Write)
group_writes grouped [] = grouped
group_writes grouped (w ∷ ws) =
    let device = identity (source_of w.link) in
    group_writes (put grouped device (writes_of grouped device ++ (w ∷ []))) ws

-- `_grouped`
unfoldable pub grouped : List Write → Dict Text (List Write)
unfolding group_writes
grouped ws = group_writes [] ws

-- The operations of the fresh plan by fingerprint; a later item takes the place of an earlier one.
unfoldable pub current_from : Dict Text PlanOp → List PlanItem → Dict Text PlanOp
current_from current [] = current
current_from current (item ∷ items) =
    current_from
      (elim item.link [ none ↦ current | some l ↦ put current (fingerprint (item_link l)) item.op ])
      items

abbrev pub op_at : List Op → Write → Option PlanOp
op_at ops w = elim (get_op ops w.op) [ none ↦ none | some op ↦ some op.item.op ]

abbrev pub is_open : List Op → Write → Bool
is_open ops w = elim (get_op ops w.op) [ none ↦ false | some op ↦ not (is_some op.outcome) ]

unfoldable pub is_stale_write : Dict Text PlanOp → List Op → Write → Bool
is_stale_write current ops w =
    if is_open ops w
    then not (get current (fingerprint (item_link w.link)) == op_at ops w)
    else false

-- `_stale_devices`, from the plan as it is worked out again
unfoldable pub stale_devices : Plan → Plan → List Op → Dict Text (List Write) → List Text
unfolding current_from is_stale_write
stale_devices plan fresh ops by_device =
    if fresh.token == plan.token
    then []
    else keys (
        keep (λ (e : Text × List Write). any (is_stale_write (current_from [] fresh.items) ops) e.1)
          by_device)

-- `_stale_reason`
unfoldable pub stale_reason : Coordinator → Write → Diagnostic
stale_reason c w =
    message
      (if is_available c (identity (source_of w.link))
        then text "stale_plan"
        else text "device_unavailable")
      (about (item_link w.link))

unfoldable pub mark_write : (Write → Diagnostic) → LinkOutcome → Job → Write → Job
mark_write reason outcome j w =
    set_op j w.op (λ op. record op { outcome = some outcome; reason = some (reason w) })

unfoldable pub mark_writes : (Write → Diagnostic) → LinkOutcome → Job → List Write → Job
unfolding mark_write
mark_writes reason outcome j [] = j
mark_writes reason outcome j (w ∷ ws) =
    mark_writes reason outcome (mark_write reason outcome j w) ws

-- `_mark`; no two devices share an operation, so the order of the set does not show.
unfoldable pub mark :
    List Text → Dict Text (List Write) → LinkOutcome → (Write → Diagnostic) → Job → Job
unfolding mark_writes
mark [] by_device outcome reason j = j
mark (device ∷ devices) by_device outcome reason j =
    mark devices by_device outcome reason
      (mark_writes reason outcome j (writes_of by_device device))

-- The devices and links that a snapshot holds, in the order of the identities.
unfoldable pub read_devices :
    Coordinator → List (Text × DeviceHandle) → List Text × List ObservedLink
read_devices c [] = ([], [])
read_devices c ((device, h) ∷ rest) =
    let later = read_devices c rest in
    elim (observed_for c h) [ none ↦ later | some d ↦ (device ∷ later.0, d.links ++ later.1) ]

abbrev pub snapshot_reason : Text
unfolding text
snapshot_reason = text "pre_apply"

take_snapshot_of : Job → List Text × List ObservedLink → Option Snapshot
take_snapshot_of j ([], links) = none
take_snapshot_of j (d ∷ ds, links) = some (record {
  id = j.id;
  created_at = j.created_at;
  reason = snapshot_reason;
  devices = d ∷ ds;
  links = links;
})

-- `_take_snapshot`: the snapshot that is stored, whose id the job keeps.
unfoldable pub take_snapshot : Coordinator → Job → Dict Text DeviceHandle → Option Snapshot
unfolding read_devices take_snapshot_of
take_snapshot c j handles = take_snapshot_of j (read_devices c (sort_by (λ e. e.0) handles))
