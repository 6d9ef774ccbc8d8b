-- ===== src/Compiler/Directions.antt =====
-- compiler.py: both directions of a rule, target by target, keep the links sound.
use ha_device_links.Prelude.{
  List, [], ◌∷◌, map, map-mem, some, true, ◌≡◌, ◌≢◌, sym, ◌∙◌, inl, inr, arith, Bool-cases,
  Option-cases, All, Memᴰ, head, tail, get, contains, mem→contains, all, has, ◌==◌, eq_iff, list_eq,
  nat_eq, list_ord, nat_ord, pair_ord,
}
use ha_device_links.Models.{
  Feature, two_way, direction_eq, feature_eq, identity, Emitter, DeviceCapabilities, Capabilities,
  Rule, RuleTarget, kind_eq,
}
use ha_device_links.Compiler.State.{Compilation, warn}
use ha_device_links.Compiler.Legs.{
  Leg, add_links, emitter_carrying, compile_reverse, reverse_receiver_endpoint,
}
use ha_device_links.Compiler.Hybrid.{Usable}
use ha_device_links.Compiler.Run.{forward_leg, link_targets}
use ha_device_links.Compiler.Post.{Returns, Returns-bind}
use ha_device_links.Compiler.Expressed.{IsKnown, IsLeg}
use ha_device_links.Compiler.Links.{Sound, Carried, add_links-Sound}

module _ (rule : Rule) (capabilities : Capabilities) where
  emitter_carrying_lem :
      (es : List Emitter) (fs : List Feature) (e : Emitter)
      → emitter_carrying es fs ≡ some e
      → Memᴰ e es × (all (λ f. has e.actions f) fs ≡ true)
  unfolding emitter_carrying
  emitter_carrying_lem [] fs e h = cc
  emitter_carrying_lem (d ∷ ds) fs e h = elim (Bool-cases (all (λ f. has d.actions f) fs)) [
    | inl carries ↦ let p : d ≡ e = (cc (rw carries at h)) in (head (sym p), rw (← p) carries)
    | inr other ↦ let (m, q) = emitter_carrying_lem ds fs e (rw other at h) in (tail m, q)
  ]

  has-Carried :
      (e : Emitter) (fs : List Feature)
      → All (λ f. contains rule.features f ≡ true) fs
      → all (λ f. has e.actions f) fs ≡ true
      → All (Carried rule capabilities e) fs
  unfolding all has
  has-Carried e [] w h = tt
  has-Carried e (f ∷ fs) w h = elim (Option-cases (get e.actions f)) [
    | inl missing ↦ absurd (ground arith)
    | inr (group, found) ↦ ((w.0, (group, found)), has-Carried e fs w.1 (ground arith))
  ]

  -- A usable target: a known device other than the rule's own source, named by the rule.
  pub record IsUsable (t : RuleTarget) (d : DeviceCapabilities) : Type 0 where
    pub known : IsKnown capabilities d
    pub same : identity d.handle ≡ identity t.device
    pub other : identity t.device ≢ identity rule.source.device
    pub named : Memᴰ t rule.targets

  target-named :
      (t : RuleTarget) (d : DeviceCapabilities)
      → IsUsable t d
      → contains (map (λ t. identity t.device) rule.targets) (identity d.handle) ≡ true
  target-named t d u =
      rw u.same
        (mem→contains _ _ (map-mem (λ (t : RuleTarget). identity t.device) rule.targets u.named))

  forward-IsLeg :
      (source d : DeviceCapabilities) (t : RuleTarget) (e : Emitter)
      → IsKnown capabilities source
      → identity source.handle ≡ identity rule.source.device
      → IsUsable t d
      → Memᴰ e source.emitters
      → e.emitter_id ≡ rule.source.emitter_id
      → IsLeg rule capabilities (forward_leg rule source e t d)
  forward-IsLeg source d t e k id u m n = record {
    writer_known = k;
    receiver_known = u.known;
    control = m;
    apart = λ p. u.other (sym u.same ∙ sym p ∙ id);
    side = inl (id, n, target-named t d u);
  }

  abbrev reverse_leg : DeviceCapabilities → DeviceCapabilities → Emitter → Leg
  reverse_leg source d e = record {
    writer = d;
    writer_endpoint = e.endpoint;
    emitter = e;
    receiver = source;
    receiver_endpoint = reverse_receiver_endpoint rule source;
  }

  reverse-IsLeg :
      (source d : DeviceCapabilities) (t : RuleTarget) (e : Emitter)
      → IsKnown capabilities source
      → identity source.handle ≡ identity rule.source.device
      → IsUsable t d
      → rule.direction ≡ two_way
      → Memᴰ e d.emitters
      → IsLeg rule capabilities (reverse_leg source d e)
  reverse-IsLeg source d t e k id u two m = record {
    writer_known = u.known;
    receiver_known = k;
    control = m;
    apart = λ p. u.other (sym u.same ∙ p ∙ id);
    side = inr (two, id, target-named t d u);
  }

  compile_reverse-Sound :
      (source d : DeviceCapabilities) (t : RuleTarget) (fs : List Feature) (c : Compilation)
      → IsKnown capabilities source
      → identity source.handle ≡ identity rule.source.device
      → IsUsable t d
      → All (λ f. contains rule.features f ≡ true) fs
      → Sound rule capabilities c
      → Returns (Sound rule capabilities) (compile_reverse rule source d fs c)
  unfolding compile_reverse
  compile_reverse-Sound source d t fs c k id u w s = elim (Bool-cases (rule.direction == two_way)) [
    | inr one ↦ rw one s
    | inl two ↦ elim (Bool-cases (fs == [])) [
      | inl none_left ↦ rw (two, none_left) s
      | inr some_left ↦ elim (Option-cases (emitter_carrying d.emitters fs)) [
        | inl missing ↦ rw (two, some_left, missing) (unfold warn in s)
        | inr (e, found) ↦
            let (m, carries) = emitter_carrying_lem d.emitters fs e found in
            rw (two, some_left, found)
              (add_links-Sound rule capabilities (reverse_leg source d e) fs c
                (reverse-IsLeg source d t e k id u ((eq_iff rule.direction two_way).0 two) m)
                (has-Carried e fs w carries) s)
      ]
    ]
  ]

  -- Both directions of each usable target.
  pub link_targets-Sound :
      (source : DeviceCapabilities) (e : Emitter) (actions reverse : List Feature) (ts : Usable)
      (c : Compilation)
      → IsKnown capabilities source
      → identity source.handle ≡ identity rule.source.device
      → Memᴰ e source.emitters
      → e.emitter_id ≡ rule.source.emitter_id
      → All (Carried rule capabilities e) actions
      → All (λ f. contains rule.features f ≡ true) reverse
      → All (λ (u : RuleTarget × DeviceCapabilities). IsUsable u.0 u.1) ts
      → Sound rule capabilities c
      → Returns (Sound rule capabilities) (link_targets rule source e actions reverse ts c)
  unfolding link_targets
  link_targets-Sound source e actions reverse [] c k id m n a r us s = s
  link_targets-Sound source e actions reverse ((t, d) ∷ ts) c k id m n a r us s =
      Returns-bind (Sound rule capabilities) (Sound rule capabilities)
        (add_links rule (forward_leg rule source e t d) actions c) _
        (add_links-Sound rule capabilities (forward_leg rule source e t d) actions c
          (forward-IsLeg source d t e k id us.0 m n) a s)
        (λ c1 s1.
          Returns-bind (Sound rule capabilities) (Sound rule capabilities)
            (compile_reverse rule source d reverse c1) _
            (compile_reverse-Sound source d t reverse c1 k id us.0 r s1)
            (λ c2 s2. link_targets-Sound source e actions reverse ts c2 k id m n a r us.1 s2))
