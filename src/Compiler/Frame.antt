-- ===== src/Compiler/Frame.antt =====
-- compiler.py: what each step of `run` leaves alone.
use ha_device_links.Prelude.{
  Dict, List, [], ◌∷◌, Option, some, none, get, list_eq, nat_eq, ◌≡◌, refl, ◌∙◌, arith,
}
use ha_device_links.Models.{
  Feature, HybridKind, Emitter, DeviceCapabilities, Capabilities, LinkTarget, Rule, RuleTarget,
  SettingsAdapter, self_load,
}
use ha_device_links.Compiler.State.{Compilation, warn, refuse}
use ha_device_links.Compiler.Find.{
  source_capabilities, find_emitter, resolved_actions, check_target, usable_targets,
}
use ha_device_links.Compiler.Legs.{endpoint_for, Leg}
use ha_device_links.Compiler.Hybrid.{
  Usable, add_hybrid, add_hybrids, compile_taken, compile_taken_all, add_self_loads,
  compile_self_load, own_targets, warn_unused, check_unused_opt_ins, unused_opt_ins, sorted_items,
  compile_hybrid,
}
use ha_device_links.Compiler.Settings.{
  check_semantics, mirror_missing, mirror_value, mirror_capability, compile_mirror,
}

-- The steps before the links add no link.
pub links-source_capabilities :
    (rule : Rule) (capabilities : Capabilities) (c : Compilation)
    → (source_capabilities rule capabilities c).0.links ≡ c.links
unfolding source_capabilities refuse
links-source_capabilities rule capabilities c = ground arith

pub links-find_emitter :
    (rule : Rule) (source : DeviceCapabilities) (c : Compilation)
    → (find_emitter rule source c).0.links ≡ c.links
unfolding find_emitter refuse
links-find_emitter rule source c = ground arith

pub links-resolved_actions :
    (e : Emitter) (wanted : List Feature) (taken : Dict Feature HybridKind) (c : Compilation)
    → (resolved_actions e wanted taken c).0.links ≡ c.links
unfolding resolved_actions warn
links-resolved_actions e wanted taken c = ground arith

links-check_target :
    (rule : Rule) (capabilities : Capabilities) (t : RuleTarget) (c : Compilation)
    → (check_target rule capabilities t c).0.links ≡ c.links
unfolding check_target refuse
links-check_target rule capabilities t c = ground arith

pub links-usable_targets :
    (rule : Rule) (capabilities : Capabilities) (ts : List RuleTarget) (c : Compilation)
    → (usable_targets rule capabilities ts c).0.links ≡ c.links
unfolding usable_targets
links-usable_targets rule capabilities [] c = refl
links-usable_targets rule capabilities (t ∷ ts) c =
    links-usable_targets rule capabilities ts (check_target rule capabilities t c).0
    ∙ links-check_target rule capabilities t c

pub links-endpoint_for : (leg : Leg) (c : Compilation) → (endpoint_for leg c).0.links ≡ c.links
unfolding endpoint_for warn
links-endpoint_for leg c = ground arith

-- So do the steps after them.
links-add_hybrid :
    (rule : Rule) (kind : HybridKind) (e : Emitter) (f : Feature) (target : LinkTarget)
    (c : Compilation)
    → (add_hybrid rule kind e f target c).links ≡ c.links
unfolding add_hybrid refuse
links-add_hybrid rule kind e f target c = ground arith

links-add_hybrids :
    (rule : Rule) (kind : HybridKind) (e : Emitter) (f : Feature) (ts : Usable) (c : Compilation)
    → (add_hybrids rule kind e f ts c).links ≡ c.links
unfolding add_hybrids
links-add_hybrids rule kind e f [] c = refl
links-add_hybrids rule kind e f ((t, d) ∷ ts) c =
    links-add_hybrids rule kind e f ts _ ∙ links-add_hybrid rule kind e f _ c

links-compile_taken :
    (rule : Rule) (e : Emitter) (ts : Usable) (k : Feature × HybridKind) (c : Compilation)
    → (compile_taken rule e ts k c).links ≡ c.links
unfolding compile_taken refuse
links-compile_taken rule e ts (f, kind) c = ground (arith, links-add_hybrids rule kind e f ts c)

links-compile_taken_all :
    (rule : Rule) (e : Emitter) (ts : Usable) (ks : List (Feature × HybridKind)) (c : Compilation)
    → (compile_taken_all rule e ts ks c).links ≡ c.links
unfolding compile_taken_all
links-compile_taken_all rule e ts [] c = refl
links-compile_taken_all rule e ts (k ∷ ks) c =
    links-compile_taken_all rule e ts ks (compile_taken rule e ts k c)
    ∙ links-compile_taken rule e ts k c

links-add_self_loads :
    (rule : Rule) (source : DeviceCapabilities) (e : Emitter) (ts : List RuleTarget)
    (c : Compilation)
    → (add_self_loads rule source e ts c).links ≡ c.links
unfolding add_self_loads
links-add_self_loads rule source e [] c = refl
links-add_self_loads rule source e (t ∷ ts) c =
    links-add_self_loads rule source e ts _ ∙ links-add_hybrid rule self_load e _ _ c

links-compile_self_load :
    (rule : Rule) (source : DeviceCapabilities) (e : Emitter) (c : Compilation)
    → (compile_self_load rule source e c).links ≡ c.links
unfolding compile_self_load warn
links-compile_self_load rule source e c =
    ground (arith, links-add_self_loads rule source e (own_targets rule) c)

links-warn_unused :
    (rule : Rule) (ks : List HybridKind) (c : Compilation) → (warn_unused rule ks c).links ≡ c.links
unfolding warn_unused warn
links-warn_unused rule [] c = refl
links-warn_unused rule (k ∷ ks) c = links-warn_unused rule ks (warn _ c)

links-check_unused_opt_ins :
    (rule : Rule) (taken : Dict Feature HybridKind) (c : Compilation)
    → (check_unused_opt_ins rule taken c).links ≡ c.links
unfolding check_unused_opt_ins
links-check_unused_opt_ins rule taken c = links-warn_unused rule (unused_opt_ins rule taken) c

module _ (rule : Rule) (source : DeviceCapabilities) (e : Emitter) where
  pub links-compile_hybrid :
      (taken : Dict Feature HybridKind) (targets : Usable) (c : Compilation)
      → (compile_hybrid rule source e taken targets c).links ≡ c.links
  unfolding compile_hybrid warn
  links-compile_hybrid taken targets c =
      let c1 = compile_taken_all rule e targets (sorted_items taken) c in
      ground (
        arith,
        links-compile_taken_all rule e targets (sorted_items taken) c,
        links-compile_self_load rule source e c1,
        links-check_unused_opt_ins rule taken c1,
        links-check_unused_opt_ins rule taken (compile_self_load rule source e c1),
      )

  pub links-check_semantics : (c : Compilation) → (check_semantics rule source e c).links ≡ c.links
  unfolding check_semantics warn
  links-check_semantics c = ground arith

links-mirror_value :
    (rule : Rule) (source : DeviceCapabilities) (a : Option SettingsAdapter) (c : Compilation)
    → (mirror_value rule source a c).links ≡ c.links
unfolding mirror_value mirror_missing warn
links-mirror_value rule source none c = refl
links-mirror_value rule source (some a) c = ground arith

pub links-compile_mirror :
    (rule : Rule) (source : DeviceCapabilities) (c : Compilation)
    → (compile_mirror rule source c).links ≡ c.links
unfolding compile_mirror
links-compile_mirror rule source c =
    ground (arith, links-mirror_value rule source (get source.settings mirror_capability) c)
