-- ===== src/Swap/Types.antt =====
-- swap.py: the proposal of a swap, and its parts.
use ha_device_links.Prelude.{
  Text, ℕ, List, [], ◌∷◌, map, Option, none, some, Bool, true, false, not, ◌&&◌, ◌||◌, any, is_some,
  get, index_by, list_eq, nat_eq, keep, ◌==◌,
}
use ha_device_links.Models.{Feature, DeviceHandle, Diagnostic, Rule, RuleTarget, identity}

pub data MappingBasis : Type 0 where
  same_emitter_id same_features chosen unmapped : MappingBasis

pub record EmitterMapping : Type 0 where
  pub old_emitter_id : Text
  pub new_emitter_id : Option Text
  pub new_label : Option Text
  pub new_endpoint : Option ℕ
  pub basis : MappingBasis
  pub features_needed : List Feature
  pub features_carried : List Feature

-- `EmitterMapping.is_mapped`
abbrev pub is_mapped : EmitterMapping → Bool
is_mapped m = is_some m.new_emitter_id

pub record RuleRewrite : Type 0 where
  pub rule_id : Text
  pub before : Rule
  pub after : Rule
  pub losses : List Diagnostic
  pub notes : List Diagnostic
  pub errors : List Diagnostic

abbrev is_nil {ℓ} : {A : Type ℓ} → List A → Bool
is_nil [] = true
is_nil (_ ∷ _) = false

-- `RuleRewrite.is_lossy`
unfoldable pub rewrite_is_lossy : RuleRewrite → Bool
rewrite_is_lossy r = not (is_nil r.losses) || not (is_nil r.errors)

pub record SwapProposal : Type 0 where
  pub old : DeviceHandle
  pub new : DeviceHandle
  pub same_model : Bool
  pub mappings : List EmitterMapping
  pub rewrites : List RuleRewrite
  pub errors : List Diagnostic

-- `SwapProposal.unmapped`
unfoldable pub unmapped_emitters : SwapProposal → List Text
unmapped_emitters p =
    map (λ (m : EmitterMapping). m.old_emitter_id) (keep (λ m. not (is_mapped m)) p.mappings)

-- `SwapProposal.is_lossy`
unfoldable pub proposal_is_lossy : SwapProposal → Bool
proposal_is_lossy p = any rewrite_is_lossy p.rewrites

unfoldable pub is_applicable : SwapProposal → Bool
is_applicable p = is_nil p.errors && is_nil (unmapped_emitters p) && not (is_nil p.rewrites)

unfoldable pub rule_after : Option RuleRewrite → Rule → Rule
rule_after none rule = rule
rule_after (some r) rule = r.after

-- `SwapProposal.rules_after`; the dictionary holds the rewrite, of which the code keeps `after`.
unfoldable pub rules_after : SwapProposal → List Rule → List Rule
unfolding rule_after
rules_after p rules =
    let rewritten = index_by (λ (r : RuleRewrite). r.rule_id) p.rewrites in
    map (λ (rule : Rule). rule_after (get rewritten rule.id) rule) rules

unfoldable pub references : Rule → Text → Bool
references rule device =
    identity rule.source.device == device
    || any (λ (t : RuleTarget). identity t.device == device) rule.targets
