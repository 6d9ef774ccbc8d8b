-- ===== src/Swap/Kept.antt =====
-- swap.py `SwapProposal.rules_after`: what a swap leaves of the rules and of their profile.
use ha_device_links.Prelude.{
  Text, List, [], ◌∷◌, map, Option, none, some, true, false, ◌≡◌, refl, inl, inr, All, All-map,
  All-of_mem, mem-All, Memᴰ, head, tail, map-mem, contains, mem→contains, mem-keep, Distinct, get,
  get-mem, index_by, index_by-All, list_eq, nat_eq, Dict,
}
use ha_device_links.Models.{
  DeviceHandle, Capabilities, identity, Rule, RuleSource, RuleTarget, Profile, new_profile, ok,
}
use ha_device_links.Models.Validation.{IsRule, new_profile-eq_iff}
use ha_device_links.Compiler.Expressed.{IsNetwork}
use ha_device_links.Swap.Types.{RuleRewrite, SwapProposal, rule_after, rules_after, references}
use ha_device_links.Swap.Rewrite.{Rewriter}
use ha_device_links.Swap.Propose.{rewriter, affected_rules, propose}
use ha_device_links.Swap.Total.{IsRewriteIn, IsRewrites, IsProposal, propose-IsProposal}

-- Of two rules with one id there is only one in the list.
Distinct-mem :
    (rules : List Rule) (a b : Rule)
    → Distinct (map (λ (r : Rule). r.id) rules)
    → Memᴰ a rules
    → Memᴰ b rules
    → a.id ≡ b.id
    → a ≡ b
Distinct-mem [] a b d m n e = elim m [ ]
Distinct-mem (r ∷ rules) a b d (head p) (head q) e = cc
Distinct-mem (r ∷ rules) a b d (head p) (tail n) e =
    let found : contains (map (λ (r : Rule). r.id) rules) b.id ≡ true =
      mem→contains _ b.id (map-mem (λ (r : Rule). r.id) rules n) in
    let same : r.id ≡ b.id = (cc (p, e)) in
    absurd
      (let other : contains (map (λ (r : Rule). r.id) rules) b.id ≡ false = rw (← same) d.0 in cc)
Distinct-mem (r ∷ rules) a b d (tail m) (head q) e =
    let found : contains (map (λ (r : Rule). r.id) rules) a.id ≡ true =
      mem→contains _ a.id (map-mem (λ (r : Rule). r.id) rules m) in
    let same : r.id ≡ a.id = (cc (q, e)) in
    absurd
      (let other : contains (map (λ (r : Rule). r.id) rules) a.id ≡ false = rw (← same) d.0 in cc)
Distinct-mem (r ∷ rules) a b d (tail m) (tail n) e = Distinct-mem rules a b d.1 m n e

-- Everything of a rule but its source and its targets.
abbrev pub rest_of : RuleSource → List RuleTarget → Rule → Rule
rest_of s ts r = record r { source = s; targets = ts }

-- What a swap leaves of one rule.
abbrev IsRemainder : Rule → Rule → Type 0
IsRemainder rule after =
    ((s : RuleSource) (ts : List RuleTarget) → rest_of s ts after ≡ rest_of s ts rule)
    × IsRule after

module _ (w : Rewriter) (old : DeviceHandle) (rules : List Rule) where
  rule_after-IsRemainder :
      (rs : List RuleRewrite) (rule : Rule) (o : Option RuleRewrite)
      → All IsRule rules
      → Distinct (map (λ (r : Rule). r.id) rules)
      → IsRewrites w (affected_rules old rules) rs
      → Memᴰ rule rules
      → get (index_by (λ (r : RuleRewrite). r.rule_id) rs) rule.id ≡ o
      → IsRemainder rule (rule_after o rule)
  unfolding rule_after
  rule_after-IsRemainder rs rule none v d h m e = ((λ s ts. refl), mem-All IsRule rules v m)
  rule_after-IsRemainder rs rule (some r) v d (h, c) m e =
      let key = λ (r : RuleRewrite). r.rule_id in
      let P = λ (x : Text × RuleRewrite).
        IsRewriteIn w (affected_rules old rules) x.1 × (x.1.rule_id ≡ x.0) in
      let ((is, among), named) =
        mem-All P (index_by key rs) (index_by-All key P rs (All-map rs (λ r k. (k, refl)) h))
          (get-mem (index_by key rs) rule.id e) in
      let same : r.before ≡ rule =
        Distinct-mem rules r.before rule d
          (mem-keep (λ rule. references rule (identity old)) rules among).0 m
          (cc (is.same_id, named)) in
      ((λ s ts. rw (is.kept, same) refl), is.valid)

map-rest :
    (f : Rule → Rule) (s : RuleSource) (ts : List RuleTarget) (rules : List Rule)
    → All (λ r. IsRemainder r (f r)) rules
    → map (rest_of s ts) (map f rules) ≡ map (rest_of s ts) rules
map-rest f s ts [] h = refl
map-rest f s ts (r ∷ rules) h = rw (h.0.0 s ts, map-rest f s ts rules h.1) refl

map-valid :
    (f : Rule → Rule) (rules : List Rule)
    → All (λ r. IsRemainder r (f r)) rules
    → All IsRule (map f rules)
map-valid f [] h = tt
map-valid f (r ∷ rules) h = (h.0.1, map-valid f rules h.1)

map-id-rest :
    (s : RuleSource) (ts : List RuleTarget) (rules : List Rule)
    → map (λ (r : Rule). r.id) (map (rest_of s ts) rules) ≡ map (λ r. r.id) rules
map-id-rest s ts [] = refl
map-id-rest s ts (r ∷ rules) = rw (map-id-rest s ts rules) refl

module _ (old new : DeviceHandle) (rules : List Rule) (capabilities : Capabilities)
    (chosen : Dict Text Text) where
  -- What holds of the rules after a swap: they are the rules before it but for sources and targets,
  -- in their order, and each is one that the constructor accepts.
  abbrev pub IsSameRest : List Rule → Type 0
  IsSameRest after =
      ((s : RuleSource) (ts : List RuleTarget)
        → map (rest_of s ts) after ≡ map (rest_of s ts) rules)
      × All IsRule after

  rules_after-IsRemainder :
      (p : SwapProposal)
      → All IsRule rules
      → Distinct (map (λ (r : Rule). r.id) rules)
      → IsProposal old new rules capabilities chosen p
      → All
          (λ rule.
            IsRemainder rule (
              rule_after (get (index_by (λ (r : RuleRewrite). r.rule_id) p.rewrites) rule.id) rule))
          rules
  unfolding rule_after index_by
  rules_after-IsRemainder p v d (inl (refused, _, none_made)) = rw none_made (
      All-of_mem rules
        (λ rule m. ((λ s ts. unfold get in refl), unfold get in mem-All IsRule rules v m)))
  rules_after-IsRemainder p v d (inr (c, found, _, same, rs)) = All-of_mem rules (λ rule m.
      rule_after-IsRemainder (rewriter old new rules capabilities chosen c) old rules p.rewrites
        rule _ v d rs m refl)

  -- The rules after a swap are the rules before it in their order, each with all but its source and
  -- its targets as it was, and each one that the constructor accepts: over capabilities that are
  -- filed under their devices' identities and name no empty group, for rules that the constructor
  -- accepts, no two of which share an id.
  pub rules_after-IsSameRest :
      (p : SwapProposal)
      → IsNetwork capabilities
      → All IsRule rules
      → Distinct (map (λ (r : Rule). r.id) rules)
      → propose old new rules capabilities chosen ≡ ok p
      → IsSameRest (rules_after p rules)
  unfolding rules_after
  rules_after-IsSameRest p n v d made =
      let (q, e, k) = propose-IsProposal old new rules capabilities chosen n v in
      let same : q ≡ p = (cc (e, made)) in
      let h = rules_after-IsRemainder p v d (rw (← same) k) in
      ((λ s ts. map-rest _ s ts rules h), map-valid _ rules h)

-- A profile whose rules a swap rewrites is still one that the constructor accepts: over capabilities
-- that are filed under their devices' identities and name no empty group, for a profile and rules
-- that the constructor accepts.
pub new_profile-rules_after :
    (old new : DeviceHandle) (q : Profile) (capabilities : Capabilities) (chosen : Dict Text Text)
    (p : SwapProposal)
    → IsNetwork capabilities
    → All IsRule q.rules
    → new_profile q ≡ ok q
    → propose old new q.rules capabilities chosen ≡ ok p
    → new_profile (record q { rules = rules_after p q.rules })
      ≡ ok (record q { rules = rules_after p q.rules })
new_profile-rules_after old new q capabilities chosen p n v made proposed =
    let (_, d) = (new_profile-eq_iff q q).0 made in
    let (same, _) = rules_after-IsSameRest old new q.rules capabilities chosen p n v d proposed in
    let after = record q { rules = rules_after p q.rules } in
    let s : RuleSource = record { device = old; endpoint = 0; emitter_id = [] } in
    let ids : map (λ (r : Rule). r.id) (rules_after p q.rules) ≡ map (λ r. r.id) q.rules =
      cc (map-id-rest s [] (rules_after p q.rules), map-id-rest s [] q.rules, same s []) in
    (new_profile-eq_iff after after).1 (refl, rw ids d)
