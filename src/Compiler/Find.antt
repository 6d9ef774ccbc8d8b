-- ===== src/Compiler/Find.antt =====
-- compiler.py: the source, the control, the groups and the targets that a rule finds.
use ha_device_links.Prelude.{
  Text, text, Dict, List, [], ◌∷◌, ◌++◌, Option, some, none, not, ◌&&◌, ◌==◌, contains, get, has,
  put, keys, list_eq, nat_eq, if◌then◌else◌,
}
use ha_device_links.Models.{
  Feature, HybridKind, self_load, on_only, off_only, button_led, on_off, level_hold, status_report,
  feature_text, feature_eq, kind_eq, direction_eq, DeviceHandle, identity, Emitter,
  DeviceCapabilities, Capabilities, Rule, RuleTarget, Diagnostic,
}
use ha_device_links.Compiler.State.{
  Compilation, message, warn, refuse, sorted_features, feature_unavailable,
}

-- `_capabilities_of`
unfoldable pub capabilities_of :
    Capabilities → Text → Compilation → Compilation × Option DeviceCapabilities
capabilities_of capabilities device c = elim (get capabilities device) [
  | none ↦ (refuse (message (text "unknown_device") ((text "device", device) ∷ [])) c, none)
  | some d ↦ (c, some d)
]

abbrev pub device_message : Text → DeviceHandle → Diagnostic
device_message key h = message key ((text "device", h.name_at_authoring) ∷ [])

refuse_long_range :
    Option DeviceCapabilities → Compilation → Compilation × Option DeviceCapabilities
refuse_long_range none c = (c, none)
refuse_long_range (some d) c =
    if d.is_long_range
    then (refuse (device_message (text "source_is_long_range") d.handle) c, none)
    else (c, some d)

-- `_source_capabilities`
unfoldable pub source_capabilities :
    Rule → Capabilities → Compilation → Compilation × Option DeviceCapabilities
unfolding refuse_long_range capabilities_of
source_capabilities rule capabilities c =
    let (c', found) = capabilities_of capabilities (identity rule.source.device) c in
    refuse_long_range found c'

unfoldable pub emitter_named : List Emitter → Text → Option Emitter
emitter_named [] id = none
emitter_named (e ∷ es) id = if e.emitter_id == id then some e else emitter_named es id

-- `_emitter`
unfoldable pub find_emitter : Rule → DeviceCapabilities → Compilation → Compilation × Option Emitter
unfolding emitter_named
find_emitter rule source c = elim (emitter_named source.emitters rule.source.emitter_id) [
  | some e ↦ (c, some e)
  | none ↦ (
    refuse
        (message (text "unknown_emitter") (
          (text "emitter", rule.source.emitter_id)
          ∷ (text "device", source.handle.name_at_authoring)
          ∷ []))
        c,
    none,
  )
]

-- `_hybrid_features`
unfoldable pub hybrid_features : Rule → Dict Feature HybridKind
hybrid_features rule =
    let taken =
      if contains rule.hybrid on_only && contains rule.features on_off
      then put [] on_off on_only
      else [] in
    let taken' =
      if contains rule.hybrid off_only && contains rule.features on_off
      then put taken on_off off_only
      else taken in
    if contains rule.hybrid button_led && contains rule.features status_report
    then put taken' status_report button_led
    else taken'

-- The loop of `_resolved_actions`: the groups found, and what is said of the features without one.
unfoldable pub resolve : Emitter → List Feature → Dict Feature Text
resolve emitter [] = []
resolve emitter (f ∷ fs) =
    let rest = resolve emitter fs in
    elim (get emitter.actions f) [ none ↦ rest | some group ↦ (f, group) ∷ rest ]

unfoldable pub unavailable : Emitter → List Feature → List Diagnostic
unavailable emitter [] = []
unavailable emitter (f ∷ fs) =
    let rest = unavailable emitter fs in
    elim (get emitter.actions f) [
      | none ↦
          message (feature_unavailable f)
            ((text "feature", feature_text f) ∷ (text "emitter", emitter.label) ∷ [])
          ∷ rest
      | some group ↦ rest
    ]

report_unavailable : Dict Feature Text → List Diagnostic → Compilation → Compilation
report_unavailable [] ds c = record c { errors = c.errors ++ ds }
report_unavailable (_ ∷ _) ds c = record c { warnings = c.warnings ++ ds }

-- `_resolved_actions`
unfoldable pub resolved_actions :
    Emitter → List Feature → Dict Feature HybridKind → Compilation → Compilation × Dict Feature Text
unfolding report_unavailable
resolved_actions emitter wanted taken c =
    let features = sorted_features wanted in
    let resolved = resolve emitter features in
    let c' = report_unavailable resolved (unavailable emitter features) c in
    (
      if has resolved level_hold && not (contains (keys resolved ++ keys taken) on_off)
          then warn
              (message (text "level_hold_without_on_off") ((text "emitter", emitter.label) ∷ [])) c'
          else c',
      resolved,
    )

usable_target :
    RuleTarget
    → Option DeviceCapabilities
    → Compilation
    → Compilation × List (RuleTarget × DeviceCapabilities)
usable_target t none c = (c, [])
usable_target t (some d) c =
    if d.is_long_range
    then (refuse (device_message (text "target_is_long_range") d.handle) c, [])
    else (c, (t, d) ∷ [])

-- One round of the loop of `_targets`.
unfoldable pub check_target :
    Rule
    → Capabilities
    → RuleTarget
    → Compilation
    → Compilation × List (RuleTarget × DeviceCapabilities)
unfolding usable_target capabilities_of
check_target rule capabilities t c =
    if identity t.device == identity rule.source.device
    then (
      if not (contains rule.hybrid self_load)
          then refuse (device_message (text "self_association_use_hybrid_leg") t.device) c
          else c,
      [],
    )
    else let (c', found) = capabilities_of capabilities (identity t.device) c in
      usable_target t found c'

-- `_targets`
unfoldable pub usable_targets :
    Rule
    → Capabilities
    → List RuleTarget
    → Compilation
    → Compilation × List (RuleTarget × DeviceCapabilities)
unfolding check_target
usable_targets rule capabilities [] c = (c, [])
usable_targets rule capabilities (t ∷ ts) c =
    let (c', found) = check_target rule capabilities t c in
    let (c'', rest) = usable_targets rule capabilities ts c' in (c'', found ++ rest)
