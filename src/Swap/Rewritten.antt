-- ===== src/Swap/Rewritten.antt =====
-- swap.py `_Rewriter.rewrite`: a rewrite never raises, and what it leaves of a rule.
use ha_device_links.Prelude.{
  Text, not, minus, dedup, contains-minus, contains-dedup, contains-sort_by, list_ord, nat_ord,
  List, [], ◌∷◌, map, Option, none, some, true, false, ◌&&◌, ◌≡◌, ◌≢◌, refl, inl, inr, arith,
  Bool-cases, Option-cases, All, any, contains, list_eq, nat_eq, option_eq, get, ◌==◌, beq_of_ne,
}
use ha_device_links.Models.{
  Diagnostic, Feature, feature_text, feature_eq, Link, identity, Rule, RuleSource, RuleTarget, ok,
}
use ha_device_links.Models.Validation.{IsRule, new_rule-eq_iff, with_enabled_lem}
use ha_device_links.Compiler.{CompiledRule, compile_rule, sorted_features}
use ha_device_links.Compiler.Post.{Returns}
use ha_device_links.Compiler.Expressed.{IsNetwork}
use ha_device_links.Compiler.Soundness.{compile_rule-IsExpressed}
use ha_device_links.Swap.Types.{EmitterMapping, RuleRewrite, references}
use ha_device_links.Swap.Rewrite.{
  Rewriter, rewrite_targets, mapped_source, rewrite_source, rewritten_rule, compiled, losses,
  loss_of, rewrite_with, rewrite,
}
use ha_device_links.Swap.Retarget.{
  rewrite_targets-Distinct, rewrite_targets-nonempty, rewrite_targets_from-apart,
}

-- The losses name the features of the rule that no link of the compiled rule carries, and no others.
abbrev IsLoss : Rewriter → Rule → CompiledRule → List Diagnostic → Type 0
IsLoss w rule c ds =
    (lost : List Feature) × (ds ≡ map (loss_of w rule) lost)
    × ((f : Feature)
        → contains lost f
          ≡ (contains rule.features f && not (contains (map (λ (l : Link). l.feature) c.links) f)))

-- What a rewrite says of its rule: the rule keeps its id and all but its source and targets, is still
-- one that the constructor accepts, and names the old device no more unless the new one has its
-- address. The losses and the errors are those of the rule, switched on and compiled.
pub record IsRewrite (w : Rewriter) (r : RuleRewrite) : Type 0 where
  pub same_id : r.rule_id ≡ r.before.id
  pub kept : r.after ≡ record r.before { source = r.after.source; targets = r.after.targets }
  pub valid : IsRule r.after
  pub moved : identity w.new ≢ identity w.old → references r.after (identity w.old) ≡ false
  pub costs :
      (c : CompiledRule) × (compile_rule (record r.after { enabled = true }) w.capabilities ≡ ok c)
      × (r.errors ≡ c.errors)
      × IsLoss w r.before c r.losses

any-false :
    (device : Text) (ts : List RuleTarget)
    → All (λ (t : RuleTarget). (identity t.device == device) ≡ false) ts
    → any (λ (t : RuleTarget). identity t.device == device) ts ≡ false
unfolding any
any-false device [] h = refl
any-false device (t ∷ ts) h = rw (h.0, any-false device ts h.1) refl

contains-sorted_features :
    (fs : List Feature) (f : Feature) → contains (sorted_features fs) f ≡ contains fs f
unfolding sorted_features
contains-sorted_features fs f =
    rw (contains-sort_by feature_text (dedup fs) f, contains-dedup fs f) refl

module _ (w : Rewriter) (rule : Rule) where
  rewritten_rule-IsRule :
      (source : RuleSource) → IsRule rule → IsRule (rewritten_rule w rule source)
  rewritten_rule-IsRule source v = record {
    has_target = rewrite_targets-nonempty w rule v.has_target;
    has_feature = v.has_feature;
    one_sided = v.one_sided;
    distinct_targets = rewrite_targets-Distinct w rule;
  }

  mapped_source-device :
      (m : EmitterMapping) (source : RuleSource)
      → mapped_source w rule m ≡ some source
      → source.device ≡ w.new
  unfolding mapped_source
  mapped_source-device m source h = ground arith

  rewrite_source-apart :
      (source : RuleSource)
      → identity w.new ≢ identity w.old
      → rewrite_source w rule ≡ some source
      → (identity source.device == identity w.old) ≡ false
  unfolding rewrite_source
  rewrite_source-apart source h e =
      elim (Bool-cases (identity rule.source.device == identity w.old)) [
        | inl old ↦ elim (Option-cases (get w.mappings rule.source.emitter_id)) [
          | inl missing ↦ cc (rw (old, missing) at e)
          | inr (m, found) ↦
              let p : source.device ≡ w.new =
                mapped_source-device m source (rw (old, found) at e) in
              rw p (beq_of_ne (identity w.new) (identity w.old) h)
        ]
        | inr other ↦ let p : rule.source ≡ source = (cc (rw other at e)) in rw (← p) other
      ]

  references-rewritten_rule :
      (source : RuleSource)
      → rewrite_source w rule ≡ some source
      → identity w.new ≢ identity w.old
      → references (rewritten_rule w rule source) (identity w.old) ≡ false
  unfolding references rewrite_targets
  references-rewritten_rule source e h =
      rw
        (
          rewrite_source-apart source h e,
          any-false (identity w.old) (rewrite_targets w rule).1
              (rewrite_targets_from-apart w rule [] rule.targets h),
        )
        refl

  -- What becomes of the rule: nothing, if its control has no mapping.
  abbrev pub IsOutcome : Option RuleRewrite → Type 0
  IsOutcome none = rewrite_source w rule ≡ none
  IsOutcome (some r) = IsRewrite w r × (r.before ≡ rule)

  losses-IsLoss : (c : CompiledRule) → IsLoss w rule c (losses w rule c)
  unfolding losses
  losses-IsLoss c =
      let carried = map (λ (l : Link). l.feature) c.links in
      (
        sorted_features (minus rule.features carried),
        refl,
        λ f.
            rw (contains-sorted_features (minus rule.features carried) f)
              (contains-minus rule.features carried f),
      )

  rewrite_with-IsOutcome :
      (o : Option RuleSource)
      → rewrite_source w rule ≡ o
      → IsNetwork w.capabilities
      → IsRule rule
      → Returns IsOutcome (rewrite_with w rule o)
  unfolding rewrite_with compiled
  rewrite_with-IsOutcome none e n v = e
  rewrite_with-IsOutcome (some source) e n v =
      let after = rewritten_rule w rule source in
      let valid = rewritten_rule-IsRule source v in
      let (c, runs, _) =
        compile_rule-IsExpressed (record after { enabled = true }) w.capabilities n in
      rw ((new_rule-eq_iff after after).1 (refl, valid), with_enabled_lem after true valid, runs)
        (
          record {
            same_id = refl;
            kept = refl;
            valid = valid;
            moved = references-rewritten_rule source e;
            costs = (c, runs, refl, losses-IsLoss c);
          },
          refl,
        )

  pub rewrite-IsOutcome :
      IsNetwork w.capabilities → IsRule rule → Returns IsOutcome (rewrite w rule)
  unfolding rewrite
  rewrite-IsOutcome n v = rewrite_with-IsOutcome (rewrite_source w rule) refl n v
