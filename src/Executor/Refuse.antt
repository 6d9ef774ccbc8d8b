-- ===== src/Executor/Refuse.antt =====
-- executor.py: what is refused before anything is read or written.
use ha_device_links.Prelude.{
  Text, text, Dict, List, [], ◌∷◌, map, Option, some, none, Bool, false, not, ◌&&◌, ◌||◌, any,
  contains, is_some, ◌==◌, list_eq, nat_eq, if◌then◌else◌,
}
use ha_device_links.Models.{
  Diagnostic, Link, ObservedLink, fingerprint, ItemLink, plain_link, observed_link, item_link,
  PlanItem, PlanOp, add, remove, set_param, blocked, pending,
}
use ha_device_links.Backends.{SystemScope, slot, entry, ObservedDevice}
use ha_device_links.Coordinator.{Coordinator, backend_for, observed_for}
use ha_device_links.Executor.Types.{Op, LinkOutcome}

unfoldable pub op_text : PlanOp → Text
op_text add = text "add"
op_text remove = text "remove"
op_text set_param = text "set_param"
op_text blocked = text "blocked"
op_text pending = text "pending"

abbrev pub message : Text → Dict Text Text → Diagnostic
message key placeholders = record { translation_key = key; placeholders = placeholders }

-- `_about`
unfoldable pub about : Link → Dict Text Text
about l =
    (text "device", l.source.name_at_authoring)
    ∷ (text "target", l.target.handle.name_at_authoring)
    ∷ (text "group", l.emitter_group)
    ∷ []

-- `isinstance(link, ObservedLink) and link.is_system`
abbrev pub reads_system : ItemLink → Bool
reads_system (plain_link l) = false
reads_system (observed_link o) = o.is_system

abbrev pub shares_slot : Link → ObservedLink → Bool
shares_slot l e =
    e.is_system
    && e.link.source_endpoint == l.source_endpoint
    && e.link.emitter_group == l.emitter_group

abbrev pub slot_taken : Link → Option ObservedDevice → Bool
slot_taken l none = false
slot_taken l (some device) = any (shares_slot l) device.links

unfoldable pub protects_slot : Coordinator → Link → Option SystemScope → Bool
protects_slot c l (some slot) = slot_taken l (observed_for c l.source)
protects_slot c l (some entry) = false
protects_slot c l none = false

-- `_is_system`
unfoldable pub is_system : Coordinator → ItemLink → Bool
unfolding protects_slot
is_system c l = reads_system l || protects_slot c (item_link l) (backend_for c (item_link l).source)

-- The `isinstance` check of a removal: an observed entry without an owner that was not selected. A
-- link that is no observed entry passes it.
abbrev pub is_unselected : ItemLink → List Text → Bool
is_unselected (plain_link l) selected = false
is_unselected (observed_link o) selected =
    not (is_some o.managed_by) && not (contains selected (fingerprint o.link))

abbrev pub reason_or_default : PlanItem → Option Diagnostic → Diagnostic
reason_or_default item (some d) = d
reason_or_default item none =
    message (text "blocked_by_plan") ((text "device", item.device_identity) ∷ [])

abbrev unsupported : PlanItem → Diagnostic
unsupported item =
    message (text "unsupported_operation")
      ((text "operation", op_text item.op) ∷ (text "device", item.device_identity) ∷ [])

-- `_refusal` after the test for system links, by the operation and the link.
unfoldable pub refusal_of : PlanItem → List Text → PlanOp → Option ItemLink → Option Diagnostic
refusal_of item selected blocked l = some (reason_or_default item item.reason)
refusal_of item selected add (some l) = none
refusal_of item selected remove (some l) =
    if is_unselected l selected
    then some (message (text "unmanaged_not_selected") (about (item_link l)))
    else none
refusal_of item selected _ _ = some (unsupported item)

unfoldable pub refusal_with :
    Coordinator → PlanItem → List Text → Option ItemLink → Option Diagnostic
unfolding refusal_of
refusal_with c item selected none = refusal_of item selected item.op none
refusal_with c item selected (some l) =
    if is_system c l
    then some (message (text "system_link_protected") (about (item_link l)))
    else refusal_of item selected item.op (some l)

-- `_refusal`
unfoldable pub refusal : Coordinator → PlanItem → List Text → Option Diagnostic
unfolding refusal_with
refusal c item selected = refusal_with c item selected item.link

unfoldable pub refuse_op : Option Diagnostic → Op → Op
refuse_op none op = op
refuse_op (some d) op = record op { outcome = some LinkOutcome.blocked; reason = some d }

-- `_refuse_impossible`
unfoldable pub refuse_impossible : Coordinator → List Text → List Op → List Op
unfolding refuse_op
refuse_impossible c selected ops = map (λ (op : Op). refuse_op (refusal c op.item selected) op) ops
