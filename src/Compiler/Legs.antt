-- ===== src/Compiler/Legs.antt =====
-- compiler.py: the links of one direction of a rule, and of the way back.
use ha_device_links.Prelude.{
  Text, text, ℕ, zero, suc, List, [], ◌∷◌, ◌++◌, Option, some, none, not, ◌||◌, ◌==◌, all, contains,
  get, has, list_eq, nat_eq, if◌then◌else◌,
}
use ha_device_links.Models.{
  Feature, two_way, feature_text, feature_eq, kind_eq, direction_eq, Emitter, DeviceCapabilities,
  Link, new_link, Rule, Result, ok, err, missing_action, ◌>>=◌,
}
use ha_device_links.Compiler.State.{Compilation, message, warn, refuse}
use ha_device_links.Compiler.Find.{device_message}

-- `_Leg`
pub record Leg : Type 0 where
  pub writer : DeviceCapabilities
  pub writer_endpoint : ℕ
  pub emitter : Emitter
  pub receiver : DeviceCapabilities
  pub receiver_endpoint : Option ℕ

-- `_endpoint_for`
unfoldable pub endpoint_for : Leg → Compilation → Compilation × Option ℕ
endpoint_for leg c = elim leg.receiver_endpoint [
  | none ↦ (c, none)
  | some n ↦ if leg.emitter.supports_endpoint_targets then (c, some n) else (
    warn
        (message (text "multi_channel_downgrade") (
          (text "emitter", leg.emitter.label)
          ∷ (text "device", leg.receiver.handle.name_at_authoring)
          ∷ []))
        c,
    none,
  )
]

unfoldable pub append_link : Compilation → Link → Compilation
append_link c l = record c { links = c.links ++ (l ∷ []) }

-- `leg.emitter.actions[feature]`
unfoldable pub action_of : Emitter → Feature → Result Text
action_of emitter f = elim (get emitter.actions f) [
  | none ↦ err missing_action
  | some group ↦ ok group
]

abbrev pub leg_link : Rule → Leg → Feature → Option ℕ → Text → Link
leg_link rule leg f endpoint group = record {
  backend = rule.backend;
  source = leg.writer.handle;
  source_endpoint = leg.writer_endpoint;
  emitter_id = leg.emitter.emitter_id;
  target = record { handle = leg.receiver.handle; endpoint = endpoint };
  feature = f;
  emitter_group = group;
  rule_id = some rule.id;
}

-- One round of the loop of `_add_links`.
unfoldable pub add_link : Rule → Leg → Feature → Compilation → Result Compilation
unfolding append_link action_of
add_link rule leg f c =
    if not (contains leg.receiver.receivable f)
    then ok (
        refuse
          (message (text "target_cannot_receive") (
            (text "device", leg.receiver.handle.name_at_authoring)
            ∷ (text "feature", feature_text f)
            ∷ []))
          c)
    else do
      let (c', endpoint) = endpoint_for leg c
      group ← action_of leg.emitter f
      l ← new_link (leg_link rule leg f endpoint group)
      ok (append_link c' l)

-- `_add_links`
unfoldable pub add_links : Rule → Leg → List Feature → Compilation → Result Compilation
unfolding add_link
add_links rule leg [] c = ok c
add_links rule leg (f ∷ fs) c = do c' ← add_link rule leg f c; add_links rule leg fs c'

-- `_emitter_carrying`
unfoldable pub emitter_carrying : List Emitter → List Feature → Option Emitter
emitter_carrying [] fs = none
emitter_carrying (e ∷ es) fs =
    if all (λ f. has e.actions f) fs then some e else emitter_carrying es fs

-- `n or None`
nonzero : ℕ → Option ℕ
nonzero zero = none
nonzero (suc n) = some (suc n)

-- `_reverse_receiver_endpoint`
unfoldable pub reverse_receiver_endpoint : Rule → DeviceCapabilities → Option ℕ
unfolding nonzero
reverse_receiver_endpoint rule source = elim source.receiving_endpoint [
  | some n ↦ some n
  | none ↦ nonzero rule.source.endpoint
]

-- `_compile_reverse`
unfoldable pub compile_reverse :
    Rule → DeviceCapabilities → DeviceCapabilities → List Feature → Compilation → Result Compilation
unfolding emitter_carrying
compile_reverse rule source target features c =
    if not (rule.direction == two_way) || features == []
    then ok c
    else elim (emitter_carrying target.emitters features) [
      | none ↦ ok (warn (device_message (text "two_way_target_has_no_control") target.handle) c)
      | some e ↦
          add_links rule
            (record {
              writer = target;
              writer_endpoint = e.endpoint;
              emitter = e;
              receiver = source;
              receiver_endpoint = reverse_receiver_endpoint rule source;
            })
            features c
    ]
