-- ===== src/Swap/Rewrite.antt =====
-- swap.py `_Rewriter`: one rule as the swap leaves it.
use ha_device_links.Prelude.{
  Text, text, Dict, ℕ, List, [], ◌∷◌, ◌++◌, map, Option, none, some, true, contains, get, minus,
  list_eq, nat_eq, option_eq, pair_eq, ◌==◌, str, if◌then◌else◌,
}
use ha_device_links.Models.{
  Feature, feature_text, feature_eq, DeviceHandle, identity, DeviceCapabilities, Capabilities,
  Diagnostic, Link, Rule, RuleSource, RuleTarget, new_rule, with_enabled, Result, ok, ◌>>=◌,
}
use ha_device_links.Compiler.{CompiledRule, compile_rule, sorted_features, message}
use ha_device_links.Swap.Types.{EmitterMapping, RuleRewrite}

-- The attributes of a `_Rewriter`.
pub record Rewriter : Type 0 where
  pub old : DeviceHandle
  pub new : DeviceHandle
  pub new_capabilities : DeviceCapabilities
  pub mappings : Dict Text EmitterMapping
  pub capabilities : Capabilities

-- `_endpoint_text`
unfoldable pub endpoint_text : Option ℕ → Text
endpoint_text none = b'-' ∷ []
endpoint_text (some n) = str n

module _ (w : Rewriter) (rule : Rule) where
  abbrev pub moved_target : RuleTarget
  moved_target = record { device = w.new; endpoint = w.new_capabilities.receiving_endpoint }

  moved_note : Diagnostic
  moved_note = message (text "swap_target_endpoint_moved") (
      (text "device", w.new.name_at_authoring)
      ∷ (text "endpoint", endpoint_text w.new_capabilities.receiving_endpoint)
      ∷ (text "rule", rule.name)
      ∷ [])

  merged_note : Diagnostic
  merged_note =
      message (text "swap_duplicate_target_merged")
        ((text "device", w.new.name_at_authoring) ∷ (text "rule", rule.name) ∷ [])

  -- `_target`, with the notes that it adds
  unfoldable pub rewrite_target : RuleTarget → List Diagnostic × RuleTarget
  unfolding moved_note
  rewrite_target t =
      if identity t.device == identity w.old
      then (
        if w.new_capabilities.receiving_endpoint == t.endpoint then [] else moved_note ∷ [],
        moved_target,
      )
      else ([], t)

  -- The key by which `_targets` tells two targets apart.
  abbrev pub target_key : RuleTarget → Text × Option ℕ
  target_key t = (identity t.device, t.endpoint)

  -- The loop of `_targets`, with the set `seen` of the keys.
  unfoldable pub rewrite_targets_from :
      List (Text × Option ℕ) → List RuleTarget → List Diagnostic × List RuleTarget
  unfolding rewrite_target merged_note
  rewrite_targets_from seen [] = ([], [])
  rewrite_targets_from seen (t ∷ ts) =
      let (notes, candidate) = rewrite_target t in
      let merged = rewrite_targets_from seen ts in
      let kept = rewrite_targets_from (target_key candidate ∷ seen) ts in
      if contains seen (target_key candidate)
      then (notes ++ (merged_note ∷ merged.0), merged.1)
      else (notes ++ kept.0, candidate ∷ kept.1)

  -- `_targets`
  unfoldable pub rewrite_targets : List Diagnostic × List RuleTarget
  unfolding rewrite_targets_from
  rewrite_targets = rewrite_targets_from [] rule.targets

  abbrev pub endpoint_or : Option ℕ → ℕ → ℕ
  endpoint_or none n = n
  endpoint_or (some m) n = m

  unfoldable pub mapped_source : EmitterMapping → Option RuleSource
  mapped_source m = elim m.new_emitter_id [
    | none ↦ none
    | some id ↦ some (record {
      device = w.new;
      endpoint = endpoint_or m.new_endpoint rule.source.endpoint;
      emitter_id = id;
    })
  ]

  -- The source of the rewritten rule, or `none` where its control has no mapping.
  unfoldable pub rewrite_source : Option RuleSource
  unfolding mapped_source
  rewrite_source =
      if identity rule.source.device == identity w.old
      then elim (get w.mappings rule.source.emitter_id) [ none ↦ none | some m ↦ mapped_source m ]
      else some rule.source

  -- `_compiled`
  unfoldable pub compiled : Rule → Result CompiledRule
  compiled after = do enabled ← with_enabled after true; compile_rule enabled w.capabilities

  abbrev pub loss_of : Feature → Diagnostic
  loss_of f = message (text "swap_feature_lost") (
      (text "feature", feature_text f)
      ∷ (text "rule", rule.name)
      ∷ (text "device", w.new.name_at_authoring)
      ∷ [])

  -- `_losses`, from what the rewritten rule compiles to
  unfoldable pub losses : CompiledRule → List Diagnostic
  losses r =
      map loss_of (sorted_features (minus rule.features (map (λ (l : Link). l.feature) r.links)))

  abbrev pub rewritten_rule : RuleSource → Rule
  rewritten_rule source = record rule { source = source; targets = rewrite_targets.1 }

  unfoldable pub rewrite_with : Option RuleSource → Result (Option RuleRewrite)
  unfolding losses compiled rewrite_targets
  rewrite_with none = ok none
  rewrite_with (some source) = do
    after ← new_rule (rewritten_rule source)
    r ← compiled after
    ok (
        some (record {
          rule_id = rule.id;
          before = rule;
          after = after;
          losses = losses r;
          notes = rewrite_targets.0;
          errors = r.errors;
        }))

  unfoldable pub rewrite : Result (Option RuleRewrite)
  unfolding rewrite_with rewrite_source
  rewrite = rewrite_with rewrite_source
