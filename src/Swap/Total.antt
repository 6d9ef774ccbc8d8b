-- ===== src/Swap/Total.antt =====
-- swap.py `propose`: it never raises, and holds a rewrite of each rule whose control has a mapping.
use ha_device_links.Prelude.{
  has, Text, Dict, List, [], ◌∷◌, map, Option, none, some, true, ◌≡◌, ◌≢◌, ◌⊎◌, refl, inl, inr,
  arith, All, All-map, keep-All, Memᴰ, head, tail, contains, get, list_eq, nat_eq, eq_refl,
}
use ha_device_links.Models.{
  DeviceHandle, DeviceCapabilities, Capabilities, Diagnostic, identity, Rule, ok,
}
use ha_device_links.Models.Validation.{IsRule}
use ha_device_links.Compiler.Post.{Returns, Returns-bind, Returns-value}
use ha_device_links.Compiler.Expressed.{IsNetwork}
use ha_device_links.Swap.Types.{RuleRewrite, SwapProposal, references}
use ha_device_links.Swap.Rewrite.{Rewriter, rewrite_source, rewrite}
use ha_device_links.Swap.Propose.{
  rewrite_all, rewriter, affected_rules, proposed_mappings, propose_with, refusals, refused,
  propose,
}
use ha_device_links.Swap.Rewritten.{IsRewrite, IsOutcome, rewrite-IsOutcome}

-- Whether the rewrites hold one for the rule, unless its control has no mapping.
abbrev pub IsCovered : Rewriter → List RuleRewrite → Rule → Type 0
IsCovered w rs rule =
    (rewrite_source w rule ≡ none)
    ⊎ (contains (map (λ (r : RuleRewrite). r.rule_id) rs) rule.id ≡ true)

module _ (w : Rewriter) where
  abbrev pub IsRewriteIn : List Rule → RuleRewrite → Type 0
  IsRewriteIn rules r = IsRewrite w r × Memᴰ r.before rules

  abbrev pub IsRewrites : List Rule → List RuleRewrite → Type 0
  IsRewrites rules rs = All (IsRewriteIn rules) rs × All (IsCovered w rs) rules

  later :
      (rule : Rule) (rules : List Rule) (rs : List RuleRewrite)
      → All (IsRewriteIn rules) rs
      → All (IsRewriteIn (rule ∷ rules)) rs
  later rule rules rs h = All-map rs (λ r (v, m). (v, tail m)) h

  cons-IsCovered :
      (r : RuleRewrite) (rules : List Rule) (rs : List RuleRewrite)
      → All (IsCovered w rs) rules
      → All (IsCovered w (r ∷ rs)) rules
  unfolding contains
  cons-IsCovered r rules rs h =
      All-map rules (λ rule c. elim c [ inl n ↦ inl n | inr m ↦ inr (ground (arith, m)) ]) h

  add_outcome :
      (rule : Rule) (rules : List Rule) (o : Option RuleRewrite) (rs : List RuleRewrite)
      → IsOutcome w rule o
      → IsRewrites rules rs
      → IsRewrites (rule ∷ rules) (elim o [ none ↦ rs | some r ↦ r ∷ rs ])
  unfolding contains
  add_outcome rule rules none rs n (h, c) = (later rule rules rs h, (inl n, c))
  add_outcome rule rules (some r) rs (v, same) (h, c) =
      let id : r.rule_id ≡ rule.id = (cc (v.same_id, same)) in
      (
        ((v, head same), later rule rules rs h),
        (inr (rw (id, eq_refl rule.id) refl), cons-IsCovered r rules rs c),
      )

  pub rewrite_all-IsRewrites :
      (rules : List Rule)
      → IsNetwork w.capabilities
      → All IsRule rules
      → Returns (IsRewrites rules) (rewrite_all w rules)
  unfolding rewrite_all
  rewrite_all-IsRewrites [] n h = (tt, tt)
  rewrite_all-IsRewrites (rule ∷ rules) n h =
      Returns-bind (IsOutcome w rule) (IsRewrites (rule ∷ rules)) (rewrite w rule) _
        (rewrite-IsOutcome w rule n h.0)
        (λ o v.
          Returns-bind (IsRewrites rules) (IsRewrites (rule ∷ rules)) (rewrite_all w rules) _
            (rewrite_all-IsRewrites rules n h.1) (λ rs k. add_outcome rule rules o rs v k))

module _ (old new : DeviceHandle) (rules : List Rule) (capabilities : Capabilities)
    (chosen : Dict Text Text) where
  -- A refused swap changes nothing and says why. Any other has a mapping for each control that the
  -- affected rules use, a rewrite only of affected rules, and one for each whose control has a mapping.
  abbrev pub IsProposal : SwapProposal → Type 0
  IsProposal p =
      ((p.errors ≢ []) × (p.mappings ≡ []) × (p.rewrites ≡ []))
      ⊎ ((d : DeviceCapabilities) × (get capabilities (identity new) ≡ some d)
          × (p.errors ≡ [])
          × (p.mappings ≡ proposed_mappings old rules d chosen)
          × IsRewrites (rewriter old new rules capabilities chosen d) (affected_rules old rules)
              p.rewrites)

  refusals-unreadable :
      get capabilities (identity new) ≡ none → refusals old new rules capabilities ≢ []
  unfolding refusals has
  refusals-unreadable h e = ground (arith, h, e)

  propose_with-IsProposal :
      (errors : List Diagnostic) (o : Option DeviceCapabilities)
      → get capabilities (identity new) ≡ o
      → (o ≡ none → errors ≢ [])
      → IsNetwork capabilities
      → All IsRule rules
      → Returns IsProposal (propose_with old new rules capabilities chosen errors o)
  unfolding propose_with refused
  propose_with-IsProposal [] none e h n v = inl (h refl, refl, refl)
  propose_with-IsProposal (d ∷ ds) none e h n v = inl ((λ q. cc q), refl, refl)
  propose_with-IsProposal (d ∷ ds) (some c) e h n v = inl ((λ q. cc q), refl, refl)
  propose_with-IsProposal [] (some d) e h n v =
      let w = rewriter old new rules capabilities chosen d in
      Returns-bind (IsRewrites w (affected_rules old rules)) IsProposal
        (rewrite_all w (affected_rules old rules)) _
        (rewrite_all-IsRewrites w (affected_rules old rules) n
          (keep-All IsRule (λ rule. references rule (identity old)) rules v))
        (λ rs k. inr (d, e, refl, refl, k))

  -- Over capabilities that are filed under their devices' identities and name no empty group, and
  -- rules that the constructor accepts, a proposal is made without an exception. It is refused, with
  -- an error, no mapping and no rewrite; or it maps the controls in use, every rewrite is of a rule
  -- that names the old device, and every such rule has a rewrite unless its control has no mapping.
  -- A rewrite keeps all of the rule but its source and targets, is a rule that the constructor
  -- accepts, names the old device no more unless the new one is at its address, and its losses name
  -- exactly the features that the rule has and no link carries that it compiles to when enabled.
  pub propose-IsProposal :
      IsNetwork capabilities
      → All IsRule rules
      → (p : SwapProposal) × (propose old new rules capabilities chosen ≡ ok p) × IsProposal p
  unfolding propose
  propose-IsProposal n v = Returns-value IsProposal (propose old new rules capabilities chosen) (
      propose_with-IsProposal (refusals old new rules capabilities)
        (get capabilities (identity new)) refl refusals-unreadable n v)
