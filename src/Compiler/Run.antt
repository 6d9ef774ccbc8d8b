-- ===== src/Compiler/Run.antt =====
-- compiler.py: `_Compilation.run` and `compile_rule`.
use ha_device_links.Prelude.{
  Text, List, [], ◌∷◌, ◌++◌, Option, some, none, keys, minus, list_eq, nat_eq, pair_ord, list_ord,
  nat_ord, sort_by, if◌then◌else◌,
}
use ha_device_links.Models.{
  Feature, feature_text, feature_eq, identity, Emitter, DeviceCapabilities, Capabilities, Link,
  fingerprint, leg_identity, Rule, RuleTarget, Result, ok, ◌>>=◌,
}
use ha_device_links.Compiler.State.{CompiledRule, Compilation, nothing, result, sorted_features}
use ha_device_links.Compiler.Legs.{Leg, add_links, compile_reverse}
use ha_device_links.Compiler.Find.{
  source_capabilities, find_emitter, hybrid_features, resolved_actions, usable_targets,
}
use ha_device_links.Compiler.Hybrid.{Usable, compile_hybrid}
use ha_device_links.Compiler.Settings.{check_semantics, compile_mirror}

abbrev pub forward_leg : Rule → DeviceCapabilities → Emitter → RuleTarget → DeviceCapabilities → Leg
forward_leg rule source e t d = record {
  writer = source;
  writer_endpoint = rule.source.endpoint;
  emitter = e;
  receiver = d;
  receiver_endpoint = t.endpoint;
}

-- The loop of `run` over the usable targets: both directions of each.
unfoldable pub link_targets :
    Rule
    → DeviceCapabilities
    → Emitter
    → List Feature
    → List Feature
    → Usable
    → Compilation
    → Result Compilation
link_targets rule source e actions reverse [] c = ok c
link_targets rule source e actions reverse ((t, d) ∷ ts) c = do
  c1 ← add_links rule (forward_leg rule source e t d) actions c
  c2 ← compile_reverse rule source d reverse c1
  link_targets rule source e actions reverse ts c2

-- `link.target.handle.identity, link.feature, link.fingerprint`
abbrev pub link_order : Link → Text × (Text × Text)
link_order l = (identity l.target.handle, (feature_text l.feature, fingerprint l))

-- What `run` does once the source and its control are known.
unfoldable pub compile_from :
    Rule → Capabilities → DeviceCapabilities → Emitter → Compilation → Result CompiledRule
unfolding link_targets
compile_from rule capabilities source e c = do
  let taken = hybrid_features rule
  let (c1, actions) = resolved_actions e (minus rule.features (keys taken)) taken c
  let reverse = sorted_features (keys actions ++ keys taken)
  let (c2, targets) = usable_targets rule capabilities rule.targets c1
  c3 ← link_targets rule source e (keys actions) reverse targets c2
  let c4 = compile_hybrid rule source e taken targets c3
  let c5 = check_semantics rule source e c4
  let c6 = compile_mirror rule source c5
  ok (
      result (record c6 {
        links = sort_by link_order c6.links;
        hybrid_legs = sort_by leg_identity c6.hybrid_legs;
      }))

unfoldable pub compile_emitter :
    Rule → Capabilities → DeviceCapabilities → Compilation × Option Emitter → Result CompiledRule
unfolding compile_from
compile_emitter rule capabilities source (c, none) = ok (result c)
compile_emitter rule capabilities source (c, some e) = compile_from rule capabilities source e c

unfoldable pub compile_source :
    Rule → Capabilities → Compilation × Option DeviceCapabilities → Result CompiledRule
unfolding compile_emitter
compile_source rule capabilities (c, none) = ok (result c)
compile_source rule capabilities (c, some source) =
    compile_emitter rule capabilities source (find_emitter rule source c)

-- `_Compilation.run`
unfoldable pub run : Rule → Capabilities → Result CompiledRule
unfolding compile_source
run rule capabilities =
    compile_source rule capabilities (source_capabilities rule capabilities nothing)

unfoldable pub compile_rule : Rule → Capabilities → Result CompiledRule
unfolding run
compile_rule rule capabilities = if rule.enabled then run rule capabilities else ok nothing
