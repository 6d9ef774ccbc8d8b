-- ===== src/Compiler/Links.antt =====
-- compiler.py: compiling never raises, and every link stands for a leg of the rule.
use ha_device_links.Prelude.{
  Text, ℕ, List, [], ◌∷◌, Option, some, none, true, ◌≡◌, ◌≢◌, inl, inr, arith, Bool-cases, get-mem,
  All, All-append, mem-All, get, contains, list_eq, nat_eq, list_ord, nat_ord, pair_ord,
  if◌then◌else◌,
}
use ha_device_links.Models.{
  Feature, direction_eq, feature_eq, Emitter, Capabilities, Rule, ok, kind_eq,
}
use ha_device_links.Models.Validation.{IsLink, new_link_of_IsLink}
use ha_device_links.Compiler.State.{CompiledRule, Compilation, refuse}
use ha_device_links.Compiler.Legs.{
  Leg, leg_link, add_link, add_links, endpoint_for, append_link, action_of,
}
use ha_device_links.Compiler.Post.{Returns, Returns-bind}
use ha_device_links.Compiler.Frame.{links-endpoint_for}
use ha_device_links.Compiler.Expressed.{IsLeg, IsExpressed, expressed}

module _ (rule : Rule) (capabilities : Capabilities) where
  -- The links so far all stand for legs of the rule.
  abbrev pub Sound : CompiledRule → Type 0
  Sound c = All (IsExpressed rule capabilities) c.links

  -- A feature of the rule for which a control has a group.
  abbrev pub Carried : Emitter → Feature → Type 0
  Carried e f =
      (contains rule.features f ≡ true) × ((group : Text) × (get e.actions f ≡ some group))

  endpoint_for_lem :
      (leg : Leg) (c : Compilation)
      → (endpoint_for leg c).1
        ≡ (if leg.emitter.supports_endpoint_targets then leg.receiver_endpoint else none)
  unfolding endpoint_for
  endpoint_for_lem leg c = ground arith

  leg_link-IsLink :
      (leg : Leg) (f : Feature) (endpoint : Option ℕ) (group : Text)
      → IsLeg rule capabilities leg
      → get leg.emitter.actions f ≡ some group
      → IsLink (leg_link rule leg f endpoint group)
  leg_link-IsLink leg f endpoint group v found = record {
    not_self = v.apart;
    has_group =
        mem-All (λ (a : Feature × Text). a.1 ≢ []) leg.emitter.actions
          (mem-All (λ (e : Emitter). All (λ (a : Feature × Text). a.1 ≢ []) e.actions)
            leg.writer.emitters v.writer_known.groups v.control)
          (get-mem leg.emitter.actions f found);
  }

  -- A feature that the receiver can act on gets its link.
  pub add_link_lem :
      (leg : Leg) (f : Feature) (c : Compilation) (group : Text)
      → IsLeg rule capabilities leg
      → contains leg.receiver.receivable f ≡ true
      → get leg.emitter.actions f ≡ some group
      → add_link rule leg f c
        ≡ ok (append_link (endpoint_for leg c).0 (leg_link rule leg f (endpoint_for leg c).1 group))
  unfolding add_link
  add_link_lem leg f c group v hears found = rw (
    hears,
    found,
    action_of,
    new_link_of_IsLink _ (leg_link-IsLink leg f (endpoint_for leg c).1 group v found),
  )

  add_link-Sound :
      (leg : Leg) (f : Feature) (c : Compilation)
      → IsLeg rule capabilities leg
      → Carried leg.emitter f
      → Sound c
      → Returns Sound (add_link rule leg f c)
  unfolding append_link
  add_link-Sound leg f c v (wanted, (group, found)) s =
      elim (Bool-cases (contains leg.receiver.receivable f)) [
        | inr deaf ↦ unfold add_link refuse in rw deaf s
        | inl hears ↦ rw (add_link_lem leg f c group v hears found) (
            All-append (IsExpressed rule capabilities) (endpoint_for leg c).0.links
              (leg_link rule leg f (endpoint_for leg c).1 group ∷ [])
              (rw (links-endpoint_for leg c) s)
              (rw (endpoint_for_lem leg c) (expressed leg f group v wanted hears found), tt))
      ]

  pub add_links-Sound :
      (leg : Leg) (fs : List Feature) (c : Compilation)
      → IsLeg rule capabilities leg
      → All (Carried leg.emitter) fs
      → Sound c
      → Returns Sound (add_links rule leg fs c)
  unfolding add_links
  add_links-Sound leg [] c v h s = s
  add_links-Sound leg (f ∷ fs) c v h s =
      Returns-bind Sound Sound (add_link rule leg f c) (add_links rule leg fs)
        (add_link-Sound leg f c v h.0 s) (λ c' s'. add_links-Sound leg fs c' v h.1 s')
