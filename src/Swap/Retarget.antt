-- ===== src/Swap/Retarget.antt =====
-- swap.py `_Rewriter._targets`: the targets of a rewritten rule.
use ha_device_links.Prelude.{
  Text, ℕ, List, [], ◌∷◌, map, Option, false, ◌≡◌, ◌≢◌, refl, inl, inr, arith, Bool-cases, All,
  contains, Distinct, Fresh, Fresh-Distinct, list_eq, nat_eq, option_eq, pair_eq, ◌==◌, eq_iff,
  beq_of_ne,
}
use ha_device_links.Models.{identity, Rule, RuleTarget, target_eq}
use ha_device_links.Swap.Rewrite.{
  Rewriter, rewrite_target, target_key, rewrite_targets_from, rewrite_targets,
}

-- Distinct keys stand for distinct targets.
contains-map :
    (w : Rewriter) (rule : Rule) (ts : List RuleTarget) (t : RuleTarget)
    → contains (map (target_key w rule) ts) (target_key w rule t) ≡ false
    → contains ts t ≡ false
unfolding contains
contains-map w rule [] t h = refl
contains-map w rule (u ∷ ts) t h = elim (Bool-cases (u == t)) [
  | inl same ↦
      let e : u ≡ t = (eq_iff u t).0 same in
      absurd (ground (arith, h, (eq_iff (target_key w rule u) (target_key w rule t)).1 (cc)))
  | inr other ↦ rw other (contains-map w rule ts t (ground (arith, h)))
]

Distinct-map :
    (w : Rewriter) (rule : Rule) (ts : List RuleTarget)
    → Distinct (map (target_key w rule) ts)
    → Distinct ts
Distinct-map w rule [] h = tt
Distinct-map w rule (t ∷ ts) h = (contains-map w rule ts t h.0, Distinct-map w rule ts h.1)

module _ (w : Rewriter) (rule : Rule) where
  rewrite_targets_from-Fresh :
      (seen : List (Text × Option ℕ)) (ts : List RuleTarget)
      → Fresh seen (map (target_key w rule) (rewrite_targets_from w rule seen ts).1)
  unfolding rewrite_targets_from
  rewrite_targets_from-Fresh seen [] = tt
  rewrite_targets_from-Fresh seen (t ∷ ts) =
      let candidate = (rewrite_target w rule t).1 in
      elim (Bool-cases (contains seen (target_key w rule candidate))) [
        | inl duplicate ↦ rw duplicate (rewrite_targets_from-Fresh seen ts)
        | inr new ↦ rw new (new, rewrite_targets_from-Fresh (target_key w rule candidate ∷ seen) ts)
      ]

  pub rewrite_targets-Distinct : Distinct (rewrite_targets w rule).1
  unfolding rewrite_targets
  rewrite_targets-Distinct =
      Distinct-map w rule (rewrite_targets_from w rule [] rule.targets).1
        ((Fresh-Distinct _).0 (rewrite_targets_from-Fresh [] rule.targets))

  rewrite_targets_from-nonempty :
      (ts : List RuleTarget) → ts ≢ [] → (rewrite_targets_from w rule [] ts).1 ≢ []
  unfolding rewrite_targets_from contains
  rewrite_targets_from-nonempty [] h e = h refl
  rewrite_targets_from-nonempty (t ∷ ts) h e = cc

  pub rewrite_targets-nonempty : rule.targets ≢ [] → (rewrite_targets w rule).1 ≢ []
  unfolding rewrite_targets
  rewrite_targets-nonempty h = rewrite_targets_from-nonempty rule.targets h

  rewrite_target-apart :
      (t : RuleTarget)
      → identity w.new ≢ identity w.old
      → (identity (rewrite_target w rule t).1.device == identity w.old) ≡ false
  unfolding rewrite_target
  rewrite_target-apart t h = elim (Bool-cases (identity t.device == identity w.old)) [
    | inl old ↦ rw old (beq_of_ne (identity w.new) (identity w.old) h)
    | inr other ↦ rw other other
  ]

  -- No rewritten target is the old device.
  pub rewrite_targets_from-apart :
      (seen : List (Text × Option ℕ)) (ts : List RuleTarget)
      → identity w.new ≢ identity w.old
      → All
          (λ (t : RuleTarget). (identity t.device == identity w.old) ≡ false)
          (rewrite_targets_from w rule seen ts).1
  unfolding rewrite_targets_from
  rewrite_targets_from-apart seen [] h = tt
  rewrite_targets_from-apart seen (t ∷ ts) h =
      let candidate = (rewrite_target w rule t).1 in
      elim (Bool-cases (contains seen (target_key w rule candidate))) [
        | inl duplicate ↦ rw duplicate (rewrite_targets_from-apart seen ts h)
        | inr new ↦ rw new (
          rewrite_target-apart t h,
          rewrite_targets_from-apart (target_key w rule candidate ∷ seen) ts h,
        )
      ]
