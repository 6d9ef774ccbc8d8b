-- ===== src/Compiler/Hybrid.antt =====
-- compiler.py: the legs that Home Assistant carries.
use ha_device_links.Prelude.{
  Text, text, Dict, ℕ, ltb, List, [], ◌∷◌, ◌++◌, Option, some, none, Bool, true, false, not, ◌&&◌,
  ◌==◌, keep, length, contains, has, values, minus, list_eq, nat_eq, option_eq, pair_ord, list_ord,
  nat_ord, sort_by, str, if◌then◌else◌,
}
use ha_device_links.Models.{
  Feature, HybridKind, two_way, self_load, button_led, on_off, feature_text, kind_text, mirror_eq,
  feature_eq, kind_eq, direction_eq, template_eq, identity, Emitter, DeviceCapabilities, HybridLeg,
  Rule, RuleTarget, LinkTarget,
}
use ha_device_links.Compiler.State.{Compilation, message, warn, refuse, sorted_kinds}
use ha_device_links.Compiler.Find.{device_message}

-- What a leg needs of the control: the button's indication, or the scene number of its press.
leg_needs : HybridKind → Emitter → Option ℕ
leg_needs button_led e = e.indicator_id
leg_needs _ e = e.scene_id

leg_refusal : HybridKind → Text
leg_refusal button_led = text "hybrid_no_button_indication"
leg_refusal _ = text "hybrid_no_scene"

abbrev pub hybrid_leg : Rule → HybridKind → Emitter → Feature → LinkTarget → HybridLeg
hybrid_leg rule kind e f target = record {
  rule_id = rule.id;
  kind = kind;
  source = rule.source.device;
  emitter_id = e.emitter_id;
  feature = f;
  target = target;
  scene_id = e.scene_id;
  indicator_id = e.indicator_id;
}

-- `_add_hybrid`
unfoldable pub add_hybrid :
    Rule → HybridKind → Emitter → Feature → LinkTarget → Compilation → Compilation
unfolding leg_needs leg_refusal
add_hybrid rule kind e f target c = elim (leg_needs kind e) [
  | none ↦
      refuse
        (message (leg_refusal kind)
          ((text "emitter", e.label) ∷ (text "device", rule.source.device.name_at_authoring) ∷ []))
        c
  | some _ ↦ record c { hybrid_legs = c.hybrid_legs ++ (hybrid_leg rule kind e f target ∷ []) }
]

abbrev pub Usable : Type 0
Usable = List (RuleTarget × DeviceCapabilities)

-- A leg of one kind for each usable target.
unfoldable pub add_hybrids :
    Rule → HybridKind → Emitter → Feature → Usable → Compilation → Compilation
unfolding add_hybrid
add_hybrids rule kind e f [] c = c
add_hybrids rule kind e f ((t, d) ∷ ts) c =
    add_hybrids rule kind e f ts
      (add_hybrid rule kind e f (record { handle = t.device; endpoint = t.endpoint }) c)

-- One round of the loop of `_compile_hybrid` over what the legs take over.
unfoldable pub compile_taken :
    Rule → Emitter → Usable → Feature × HybridKind → Compilation → Compilation
unfolding add_hybrids
compile_taken rule e targets (f, kind) c =
    if kind == button_led && ltb 1 (length targets)
    then refuse
        (message (text "hybrid_button_led_one_target")
          ((text "emitter", e.label) ∷ (text "count", str (length targets)) ∷ []))
        c
    else add_hybrids rule kind e f targets c

unfoldable pub compile_taken_all :
    Rule → Emitter → Usable → List (Feature × HybridKind) → Compilation → Compilation
unfolding compile_taken
compile_taken_all rule e targets [] c = c
compile_taken_all rule e targets (k ∷ ks) c =
    compile_taken_all rule e targets ks (compile_taken rule e targets k c)

abbrev pub first_of_options : Option ℕ → Option ℕ → Option ℕ
first_of_options none b = b
first_of_options (some n) b = some n

unfoldable pub add_self_loads :
    Rule → DeviceCapabilities → Emitter → List RuleTarget → Compilation → Compilation
unfolding add_hybrid
add_self_loads rule source e [] c = c
add_self_loads rule source e (t ∷ ts) c = add_self_loads rule source e ts (
    add_hybrid rule self_load e on_off
      (record {
        handle = source.handle;
        endpoint = first_of_options t.endpoint source.receiving_endpoint;
      })
      c)

-- The targets that name the rule's own source.
abbrev pub own_targets : Rule → List RuleTarget
own_targets rule = keep (λ t. identity t.device == identity rule.source.device) rule.targets

-- `_compile_self_load`
unfoldable pub compile_self_load : Rule → DeviceCapabilities → Emitter → Compilation → Compilation
unfolding add_self_loads
compile_self_load rule source e c = elim (own_targets rule) [
  | [] ↦ warn (device_message (text "hybrid_self_load_not_targeted") source.handle) c
  | t ∷ ts ↦ add_self_loads rule source e (own_targets rule) c
]

unfoldable pub warn_unused : Rule → List HybridKind → Compilation → Compilation
warn_unused rule [] c = c
warn_unused rule (k ∷ ks) c = warn_unused rule ks (
    warn
      (message (text "hybrid_opt_in_unused")
        ((text "kind", kind_text k) ∷ (text "rule", rule.name) ∷ []))
      c)

abbrev is_nil : List HybridLeg → Bool
is_nil [] = true
is_nil (_ ∷ _) = false

-- `sorted(taken.items())`
unfoldable pub sorted_items : Dict Feature HybridKind → List (Feature × HybridKind)
sorted_items taken = sort_by {K = Text × Text} (λ k. (feature_text k.0, kind_text k.1)) taken

-- The opt-ins that act on nothing, in order.
unfoldable pub unused_opt_ins : Rule → Dict Feature HybridKind → List HybridKind
unused_opt_ins rule taken = sorted_kinds (minus rule.hybrid (values taken ++ (self_load ∷ [])))

-- `_check_unused_opt_ins`
unfoldable pub check_unused_opt_ins : Rule → Dict Feature HybridKind → Compilation → Compilation
unfolding warn_unused unused_opt_ins
check_unused_opt_ins rule taken c = warn_unused rule (unused_opt_ins rule taken) c

-- `_compile_hybrid`
unfoldable pub compile_hybrid :
    Rule
    → DeviceCapabilities
    → Emitter
    → Dict Feature HybridKind
    → Usable
    → Compilation
    → Compilation
unfolding compile_taken_all compile_self_load check_unused_opt_ins sorted_items
compile_hybrid rule source e taken targets c =
    if rule.hybrid == []
    then c
    else let c1 = compile_taken_all rule e targets (sorted_items taken) c in
      let c2 = if contains rule.hybrid self_load then compile_self_load rule source e c1 else c1 in
      let c3 = check_unused_opt_ins rule taken c2 in
      if not (is_nil c3.hybrid_legs) && rule.direction == two_way && has taken on_off
      then warn (message (text "hybrid_reverse_carries_both") ((text "emitter", e.label) ∷ [])) c3
      else c3
