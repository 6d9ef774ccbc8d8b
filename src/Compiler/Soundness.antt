-- ===== src/Compiler/Soundness.antt =====
-- compiler.py `compile_rule`: it never raises, and every link stands for a leg of the rule.
use ha_device_links.Prelude.{
  Dict, List, [], ◌∷◌, ◌++◌, Option, some, none, true, false, ◌≡◌, refl, ◌⊎◌, inl, inr, Bool-cases,
  Option-cases, All, All-of_mem, All-map, All-append, Memᴰ, get, keys, contains, sort_by,
  sort_by-All, minus, ◌==◌, ne_of_beq, eq_iff, list_eq, nat_eq, list_ord, nat_ord, pair_ord,
}
use ha_device_links.Models.{
  Feature, HybridKind, feature_eq, identity, Emitter, DeviceCapabilities, Capabilities, Rule,
  RuleTarget, ok,
}
use ha_device_links.Compiler.State.{CompiledRule, Compilation, nothing, sorted_features, result}
use ha_device_links.Compiler.Find.{
  capabilities_of, source_capabilities, find_emitter, hybrid_features, resolved_actions,
  check_target, usable_targets,
}
use ha_device_links.Compiler.Hybrid.{Usable, compile_hybrid}
use ha_device_links.Compiler.Settings.{check_semantics, compile_mirror}
use ha_device_links.Compiler.Run.{
  link_targets, link_order, compile_from, compile_emitter, compile_source, run, compile_rule,
}
use ha_device_links.Compiler.Post.{Returns, Returns-bind, Returns-value, Returns-if}
use ha_device_links.Compiler.Frame.{
  links-source_capabilities, links-find_emitter, links-resolved_actions, links-usable_targets,
  links-compile_hybrid, links-check_semantics, links-compile_mirror,
}
use ha_device_links.Compiler.Expressed.{
  IsNetwork, IsKnown, IsKnown-of_get, IsExpressed, source_capabilities_lem, find_emitter_lem,
  hybrid_features-wanted, sorted_features-All, minus-wanted, resolve-All,
}
use ha_device_links.Compiler.Links.{Sound, Carried}
use ha_device_links.Compiler.Directions.{IsUsable, link_targets-Sound}

module _ (rule : Rule) (capabilities : Capabilities) (network : IsNetwork capabilities) where
  abbrev AllUsable : Usable → Type 0
  AllUsable us =
      All (λ (u : RuleTarget × DeviceCapabilities). IsUsable rule capabilities u.0 u.1) us

  check_target_lem :
      (t : RuleTarget) (c : Compilation)
      → ((check_target rule capabilities t c).1 ≡ [])
        ⊎ ((d : DeviceCapabilities) × ((check_target rule capabilities t c).1 ≡ (t, d) ∷ [])
            × (get capabilities (identity t.device) ≡ some d)
            × (d.is_long_range ≡ false)
            × ((identity t.device == identity rule.source.device) ≡ false))
  unfolding check_target
  check_target_lem t c = elim (Bool-cases (identity t.device == identity rule.source.device)) [
    | inl own ↦ inl (rw own)
    | inr other ↦ elim (Option-cases (get capabilities (identity t.device))) [
      | inl missing ↦ inl (rw (other, missing, capabilities_of))
      | inr (d, found) ↦ elim (Bool-cases d.is_long_range) [
        | inl far ↦ inl (rw (other, found, capabilities_of, far))
        | inr near ↦ inr (d, rw (other, found, capabilities_of, near), found, near, other)
      ]
    ]
  ]

  usable_targets-All :
      (ts : List RuleTarget) (c : Compilation)
      → All (λ t. Memᴰ t rule.targets) ts
      → AllUsable (usable_targets rule capabilities ts c).1
  unfolding usable_targets
  usable_targets-All [] c h = tt
  usable_targets-All (t ∷ ts) c h =
      let rest = usable_targets-All ts (check_target rule capabilities t c).0 h.1 in
      elim (check_target_lem t c) [
        | inl none_found ↦ rw none_found rest
        | inr (d, found, filed, near, other) ↦
            let (known, same) =
              IsKnown-of_get capabilities (identity t.device) d network filed near in
            rw found (
              record {
                known = known;
                same = same;
                other = ne_of_beq (identity t.device) (identity rule.source.device) other;
                named = h.0;
              },
              rest,
            )
      ]

  -- What the control carries of what the rule asks for and no hybrid leg takes over.
  resolved_actions-Carried :
      (e : Emitter) (taken : Dict Feature HybridKind) (c : Compilation)
      → All
          (Carried rule capabilities e)
          (keys (resolved_actions e (minus rule.features (keys taken)) taken c).1)
  unfolding resolved_actions
  resolved_actions-Carried e taken c =
      resolve-All (λ f. contains rule.features f ≡ true) e
        (sorted_features (minus rule.features (keys taken)))
        (sorted_features-All (λ f. contains rule.features f ≡ true)
          (minus rule.features (keys taken)) (minus-wanted rule (keys taken)))

  reverse-wanted :
      (e : Emitter) (fs : List Feature)
      → All (Carried rule capabilities e) fs
      → All
          (λ f. contains rule.features f ≡ true)
          (sorted_features (fs ++ keys (hybrid_features rule)))
  reverse-wanted e fs h =
      sorted_features-All (λ f. contains rule.features f ≡ true) (fs ++ keys (hybrid_features rule))
        (All-append (λ f. contains rule.features f ≡ true) fs (keys (hybrid_features rule))
          (All-map fs (λ f (w : Carried rule capabilities e f). w.0) h)
          (hybrid_features-wanted rule))

  -- The steps after the links leave them sound.
  finish-Sound :
      (source : DeviceCapabilities) (e : Emitter) (taken : Dict Feature HybridKind) (ts : Usable)
      (c : Compilation)
      → Sound rule capabilities c
      → All (IsExpressed rule capabilities) (
          sort_by link_order
            (compile_mirror rule source
              (check_semantics rule source e (compile_hybrid rule source e taken ts c))).links)
  finish-Sound source e taken ts c s = sort_by-All link_order (IsExpressed rule capabilities) _ (
      rw
        (
          links-compile_mirror rule source
              (check_semantics rule source e (compile_hybrid rule source e taken ts c)),
          links-check_semantics rule source e (compile_hybrid rule source e taken ts c),
          links-compile_hybrid rule source e taken ts c,
        )
        s)

  compile_from-Sound :
      (source : DeviceCapabilities) (e : Emitter) (c : Compilation)
      → IsKnown capabilities source
      → identity source.handle ≡ identity rule.source.device
      → Memᴰ e source.emitters
      → e.emitter_id ≡ rule.source.emitter_id
      → Sound rule capabilities c
      → Returns (Sound rule capabilities) (compile_from rule capabilities source e c)
  unfolding compile_from result
  compile_from-Sound source e c k id m n s =
      let taken = hybrid_features rule in
      let (c1, actions) = resolved_actions e (minus rule.features (keys taken)) taken c in
      let (c2, ts) = usable_targets rule capabilities rule.targets c1 in
      let carried = resolved_actions-Carried e taken c in
      Returns-bind (Sound rule capabilities) (Sound rule capabilities)
        (link_targets rule source e (keys actions) (sorted_features (keys actions ++ keys taken)) ts
          c2)
        _
        (link_targets-Sound rule capabilities source e (keys actions)
          (sorted_features (keys actions ++ keys taken)) ts c2 k id m n carried
          (reverse-wanted e (keys actions) carried)
          (usable_targets-All rule.targets c1 (All-of_mem rule.targets (λ t h. h)))
          (rw
            (
              links-usable_targets rule capabilities rule.targets c1,
              links-resolved_actions e (minus rule.features (keys taken)) taken c,
            )
            s))
        (λ c3 s3. finish-Sound source e taken ts c3 s3)

  compile_emitter-Sound :
      (source : DeviceCapabilities) (c : Compilation) (o : Option Emitter)
      → ((e : Emitter)
          → o ≡ some e
          → Memᴰ e source.emitters × (e.emitter_id ≡ rule.source.emitter_id))
      → IsKnown capabilities source
      → identity source.handle ≡ identity rule.source.device
      → Sound rule capabilities c
      → Returns (Sound rule capabilities) (compile_emitter rule capabilities source (c, o))
  unfolding compile_emitter result
  compile_emitter-Sound source c none h k id s = s
  compile_emitter-Sound source c (some e) h k id s =
      let (m, n) = h e refl in compile_from-Sound source e c k id m n s

  compile_source-Sound :
      (c : Compilation) (o : Option DeviceCapabilities)
      → ((d : DeviceCapabilities)
          → o ≡ some d
          → (get capabilities (identity rule.source.device) ≡ some d) × (d.is_long_range ≡ false))
      → Sound rule capabilities c
      → Returns (Sound rule capabilities) (compile_source rule capabilities (c, o))
  unfolding compile_source result
  compile_source-Sound c none h s = s
  compile_source-Sound c (some d) h s =
      let (found, near) = h d refl in
      let (known, same) =
        IsKnown-of_get capabilities (identity rule.source.device) d network found near in
      let (c1, o) = find_emitter rule d c in
      compile_emitter-Sound d c1 o
        (λ e p.
          let (m, q) = find_emitter_lem rule d c e p in
          (m, (eq_iff e.emitter_id rule.source.emitter_id).0 q))
        known same (rw (links-find_emitter rule d c) s)

  run-Sound : Returns (Sound rule capabilities) (run rule capabilities)
  unfolding run
  run-Sound =
      let (c, o) = source_capabilities rule capabilities nothing in
      compile_source-Sound c o (source_capabilities_lem rule capabilities nothing)
        (rw (links-source_capabilities rule capabilities nothing) tt)

  -- Over capabilities that are filed under their devices' identities and name no empty group, a rule
  -- compiles without an exception, and every link stands for a leg of the rule: from a control of one
  -- known device within range to another such device, in the rule's own direction or back for a
  -- two-way rule, carrying a feature of the rule that the receiver can act on, by the group that the
  -- control has for it, and on an endpoint only if the control supports one.
  pub compile_rule-IsExpressed :
      (r : CompiledRule) × (compile_rule rule capabilities ≡ ok r)
      × All (IsExpressed rule capabilities) r.links
  unfolding compile_rule
  compile_rule-IsExpressed =
      Returns-value (Sound rule capabilities) (compile_rule rule capabilities) (
        Returns-if (Sound rule capabilities) rule.enabled (run rule capabilities) (ok nothing)
          run-Sound tt)
