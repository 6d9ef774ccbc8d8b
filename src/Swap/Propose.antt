-- ===== src/Swap/Propose.antt =====
-- swap.py `propose`: the refusals, the mappings and the rewrites of a swap.
use ha_device_links.Prelude.{
  Text, text, Dict, List, [], ◌∷◌, ◌++◌, map, Option, none, some, Bool, not, ◌&&◌, any, keep, get,
  has, index_by, sort_by, list_eq, nat_eq, list_ord, nat_ord, ◌==◌, if◌then◌else◌,
}
use ha_device_links.Models.{
  Feature, DeviceHandle, identity, model_key, backend_text, backend_eq, DeviceCapabilities,
  Capabilities, Diagnostic, Rule, Result, ok, ◌>>=◌,
}
use ha_device_links.Compiler.{message, device_message}
use ha_device_links.Swap.Types.{EmitterMapping, RuleRewrite, SwapProposal, references}
use ha_device_links.Swap.Mapping.{emitters_used, map_emitter}
use ha_device_links.Swap.Rewrite.{Rewriter, rewrite}

abbrev pub same_model_key : DeviceHandle → DeviceHandle → Bool
same_model_key a b = model_key a.fingerprint == model_key b.fingerprint

abbrev when : Bool → Diagnostic → List Diagnostic
when b d = if b then d ∷ [] else []

-- `_refusals`
unfoldable pub refusals : DeviceHandle → DeviceHandle → List Rule → Capabilities → List Diagnostic
refusals old new rules capabilities =
    when (identity old == identity new && same_model_key old new)
      (device_message (text "swap_same_device") new)
    ++ (when (not (old.backend == new.backend)) (
          message (text "swap_across_backends")
            ((text "old", backend_text old.backend) ∷ (text "new", backend_text new.backend) ∷ []))
        ++ (when (not (has capabilities (identity new)))
              (device_message (text "swap_replacement_unreadable") new)
            ++ when (not (any (λ rule. references rule (identity old)) rules))
                (device_message (text "swap_device_not_referenced") old)))

-- The rewrites that are not `None`.
unfoldable pub rewrite_all : Rewriter → List Rule → Result (List RuleRewrite)
rewrite_all w [] = ok []
rewrite_all w (rule ∷ rules) = do
  r ← rewrite w rule
  rest ← rewrite_all w rules
  ok (elim r [ none ↦ rest | some rw' ↦ rw' ∷ rest ])

unfoldable pub map_emitters :
    DeviceCapabilities → Dict Text Text → List (Text × List Feature) → List EmitterMapping
map_emitters d chosen used =
    map (λ (u : Text × List Feature). map_emitter u.0 u.1 d (get chosen u.0))
      (sort_by (λ u. u.0) used)

unfoldable pub refused : DeviceHandle → DeviceHandle → List Diagnostic → SwapProposal
refused old new errors = record {
  old = old;
  new = new;
  same_model = same_model_key old new;
  mappings = [];
  rewrites = [];
  errors = errors;
}

abbrev pub affected_rules : DeviceHandle → List Rule → List Rule
affected_rules old rules = keep (λ rule. references rule (identity old)) rules

abbrev pub proposed_mappings :
    DeviceHandle → List Rule → DeviceCapabilities → Dict Text Text → List EmitterMapping
proposed_mappings old rules d chosen =
    map_emitters d chosen (emitters_used (affected_rules old rules) (identity old))

abbrev pub rewriter :
    DeviceHandle
    → DeviceHandle
    → List Rule
    → Capabilities
    → Dict Text Text
    → DeviceCapabilities
    → Rewriter
rewriter old new rules capabilities chosen d = record {
  old = old;
  new = new;
  new_capabilities = d;
  mappings =
      index_by (λ (m : EmitterMapping). m.old_emitter_id) (proposed_mappings old rules d chosen);
  capabilities = capabilities;
}

unfoldable pub propose_with :
    DeviceHandle
    → DeviceHandle
    → List Rule
    → Capabilities
    → Dict Text Text
    → List Diagnostic
    → Option DeviceCapabilities
    → Result SwapProposal
unfolding refused rewrite_all map_emitters
propose_with old new rules capabilities chosen [] (some d) = do
  rewrites ← rewrite_all (rewriter old new rules capabilities chosen d) (affected_rules old rules)
  ok (record {
    old = old;
    new = new;
    same_model = same_model_key old new;
    mappings = proposed_mappings old rules d chosen;
    rewrites = rewrites;
    errors = [];
  })
propose_with old new rules capabilities chosen errors _ = ok (refused old new errors)

-- `chosen` that is left out is the empty dictionary.
unfoldable pub propose :
    DeviceHandle → DeviceHandle → List Rule → Capabilities → Dict Text Text → Result SwapProposal
unfolding propose_with refusals
propose old new rules capabilities chosen =
    propose_with old new rules capabilities chosen (refusals old new rules capabilities)
      (get capabilities (identity new))
