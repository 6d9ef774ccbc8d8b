-- ===== src/Swap/Applied.antt =====
-- swap.py `SwapProposal.rules_after`: the rules after a swap that can be applied.
use ha_device_links.Prelude.{
  Text, Dict, List, [], ◌∷◌, map, Option, none, some, true, false, not, ◌≡◌, ◌≢◌, refl, inl, inr,
  arith, Bool-cases, Option-cases, All, All-map, All-of_mem, mem-All, Memᴰ, contains, mem_keep, get,
  get-mem, has, has-keys, index_by, index_by-All, contains-keys-index_by, keep, list_eq, nat_eq,
  ◌==◌,
}
use ha_device_links.Models.{DeviceHandle, DeviceCapabilities, Capabilities, identity, Rule, ok}
use ha_device_links.Models.Validation.{IsRule}
use ha_device_links.Compiler.Expressed.{IsNetwork}
use ha_device_links.Swap.Types.{
  EmitterMapping, is_mapped, RuleRewrite, SwapProposal, unmapped_emitters, is_applicable,
  rule_after, rules_after, references,
}
use ha_device_links.Swap.Rewrite.{Rewriter, mapped_source, rewrite_source}
use ha_device_links.Swap.Propose.{rewriter, affected_rules, proposed_mappings, propose}
use ha_device_links.Swap.Total.{IsCovered, IsRewrites, IsProposal, propose-IsProposal}
use ha_device_links.Swap.Mapped.{map_emitters-used}

has-index_by :
    {V : Type 0} (key : V → Text) (xs : List V) (k : Text)
    → contains (map key xs) k ≡ true
    → (v : V) × (get (index_by key xs) k ≡ some v)
unfolding has
has-index_by key xs k h = elim (Option-cases (get (index_by key xs) k)) [
  | inr (v, found) ↦ (v, found)
  | inl missing ↦ absurd (
      let e : has (index_by key xs) k ≡ true =
        (cc (has-keys (index_by key xs) k, contains-keys-index_by key xs k, h)) in
      ground (arith, e, missing))
]

unmapped-All :
    (ms : List EmitterMapping)
    → map (λ (m : EmitterMapping). m.old_emitter_id) (keep (λ m. not (is_mapped m)) ms) ≡ []
    → All (λ (m : EmitterMapping). is_mapped m ≡ true) ms
unfolding keep
unmapped-All [] h = tt
unmapped-All (m ∷ ms) h = elim (Bool-cases (is_mapped m)) [
  | inl mapped ↦ (mapped, unmapped-All ms (rw mapped at h))
  | inr unmapped ↦ cc (rw unmapped at h)
]

mapped_source-some :
    (w : Rewriter) (rule : Rule) (m : EmitterMapping)
    → is_mapped m ≡ true
    → mapped_source w rule m ≢ none
unfolding mapped_source
mapped_source-some w rule m h = ground (arith, h)

rewrite_source-some :
    (w : Rewriter) (rule : Rule) (m : EmitterMapping)
    → get w.mappings rule.source.emitter_id ≡ some m
    → is_mapped m ≡ true
    → rewrite_source w rule ≢ none
unfolding rewrite_source
rewrite_source-some w rule m found h e =
    elim (Bool-cases (identity rule.source.device == identity w.old)) [
      | inl own ↦ mapped_source-some w rule m h (rw (own, found) at e)
      | inr other ↦ cc (rw other at e)
    ]

rewrite_source-kept :
    (w : Rewriter) (rule : Rule)
    → (identity rule.source.device == identity w.old) ≡ false
    → rewrite_source w rule ≢ none
unfolding rewrite_source
rewrite_source-kept w rule other e = cc (rw other at e)

module _ (old new : DeviceHandle) (rules : List Rule) (capabilities : Capabilities)
    (chosen : Dict Text Text) where
  module _ (d : DeviceCapabilities)
      (mapped : All
        (λ (m : EmitterMapping). is_mapped m ≡ true)
        (proposed_mappings old rules d chosen)) where
    used_mapping :
        (rule : Rule)
        → Memᴰ rule (affected_rules old rules)
        → (identity rule.source.device == identity old) ≡ true
        → (m : EmitterMapping) × (get
              (rewriter old new rules capabilities chosen d).mappings
              rule.source.emitter_id
            ≡ some m)
          × (is_mapped m ≡ true)
    used_mapping rule member own =
        let ms = proposed_mappings old rules d chosen in
        let key = λ (m : EmitterMapping). m.old_emitter_id in
        let (m, found) =
          has-index_by key ms rule.source.emitter_id
            (map_emitters-used (identity old) d chosen (affected_rules old rules) member own) in
        (
          m,
          found,
          mem-All (λ e. is_mapped e.1 ≡ true) (index_by key ms)
              (index_by-All key (λ e. is_mapped e.1 ≡ true) ms mapped)
              (get-mem (index_by key ms) rule.source.emitter_id found),
        )

    affected-source :
        (rule : Rule)
        → Memᴰ rule (affected_rules old rules)
        → rewrite_source (rewriter old new rules capabilities chosen d) rule ≢ none
    affected-source rule member = elim (Bool-cases (identity rule.source.device == identity old)) [
      | inl own ↦
          let (m, found, ok_m) = used_mapping rule member own in
          rewrite_source-some (rewriter old new rules capabilities chosen d) rule m found ok_m
      | inr other ↦ rewrite_source-kept (rewriter old new rules capabilities chosen d) rule other
    ]

    rule_after-apart :
        (rs : List RuleRewrite) (rule : Rule)
        → identity new ≢ identity old
        → IsRewrites (rewriter old new rules capabilities chosen d) (affected_rules old rules) rs
        → Memᴰ rule rules
        → (o : Option RuleRewrite) → get (index_by (λ (r : RuleRewrite). r.rule_id) rs) rule.id ≡ o
        → references (rule_after o rule) (identity old) ≡ false
    unfolding rule_after
    rule_after-apart rs rule apart (h, c) member (some r) found =
        let key = λ (r : RuleRewrite). r.rule_id in
        mem-All (λ e. references e.1.after (identity old) ≡ false) (index_by key rs)
          (index_by-All key (λ e. references e.1.after (identity old) ≡ false) rs
            (All-map rs (λ r (v, m). v.moved apart) h))
          (get-mem (index_by key rs) rule.id found)
    rule_after-apart rs rule apart (h, c) member none missing =
        elim (Bool-cases (references rule (identity old))) [
          | inr free ↦ free
          | inl named ↦
              let w = rewriter old new rules capabilities chosen d in
              let m = mem_keep (λ rule. references rule (identity old)) rules member named in
              elim (mem-All (IsCovered w rs) (affected_rules old rules) c m) [
                | inl unmapped ↦ absurd (affected-source rule m unmapped)
                | inr covered ↦
                    let (r, found) =
                      has-index_by (λ (r : RuleRewrite). r.rule_id) rs rule.id covered in
                    cc
              ]
        ]

  All-map_rules :
      (P : Rule → Type 0) (f : Rule → Rule) (rs : List Rule)
      → All (λ rule. P (f rule)) rs
      → All P (map f rs)
  All-map_rules P f [] h = tt
  All-map_rules P f (r ∷ rs) h = (h.0, All-map_rules P f rs h.1)

  applicable-parts :
      (p : SwapProposal)
      → is_applicable p ≡ true
      → (p.errors ≡ []) × All (λ (m : EmitterMapping). is_mapped m ≡ true) p.mappings
  unfolding is_applicable unmapped_emitters
  applicable-parts p h = (ground (arith, h), unmapped-All p.mappings (ground (arith, h)))

  proposal-apart :
      (p : SwapProposal)
      → identity new ≢ identity old
      → is_applicable p ≡ true
      → IsProposal old new rules capabilities chosen p
      → All (λ rule. references rule (identity old) ≡ false) (rules_after p rules)
  unfolding rules_after
  proposal-apart p apart h (inl (refused, _, _)) = absurd (refused (applicable-parts p h).0)
  proposal-apart p apart h (inr (d, found, _, same, rs)) =
      All-map_rules (λ rule. references rule (identity old) ≡ false) _ rules
        (All-of_mem rules (λ rule m.
          rule_after-apart d (rw (← same) (applicable-parts p h).1) p.rewrites rule apart rs m
            (get (index_by (λ (r : RuleRewrite). r.rule_id) p.rewrites) rule.id) refl))

  -- Once a swap that can be applied is applied, no rule names the old device, neither as its source
  -- nor as a target: over capabilities that are filed under their devices' identities and name no
  -- empty group, for rules that the constructor accepts and a new device at another address.
  pub references-rules_after :
      (p : SwapProposal)
      → IsNetwork capabilities
      → All IsRule rules
      → identity new ≢ identity old
      → propose old new rules capabilities chosen ≡ ok p
      → is_applicable p ≡ true
      → All (λ rule. references rule (identity old) ≡ false) (rules_after p rules)
  references-rules_after p n v apart made h =
      let (q, e, k) = propose-IsProposal old new rules capabilities chosen n v in
      let same : q ≡ p = (cc (e, made)) in proposal-apart p apart h (rw (← same) k)
