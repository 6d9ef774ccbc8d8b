-- ===== src/Tests/Swaps.antt =====
-- A swap of one lamp for another, and the results on swaps at it.
use ha_device_links.Prelude.{
  map, contains, ◌≡◌, ◌≢◌, refl, [], ◌∷◌, true, false, All, ne_of_beq, nat_eq, list_eq,
}
use ha_device_links.Models.{
  model_key, zwave, Profile, new_profile, backend_discrete, new_rule, with_enabled, DeviceHandle,
  Capabilities, Result, ok, err, identity,
}
use ha_device_links.Compiler.Expressed.{IsNetwork}
use ha_device_links.Swap.{
  Replacement, find_replacements, find_from, found_replacement, add_replacement, replacement_for,
  replacement_at, candidates_for, all_handles, naming_rules, SwapProposal, is_applicable,
  unmapped_emitters, rules_after, references, propose, propose_with, refusals, rewrite_all, rewrite,
  rewrite_with, rewrite_source, compiled, losses, rewrite_targets, rewrite_targets_from,
  rewrite_target, map_emitters, emitters_used, emitters_used_from, mapped_source, map_emitter,
  map_first, mapping, covering, map_covering, refused, rewrite_is_lossy,
}
use ha_device_links.Swap.Total.{IsProposal, propose-IsProposal}
use ha_device_links.Swap.Kept.{IsSameRest, rules_after-IsSameRest, new_profile-rules_after}
use ha_device_links.Swap.Offered.{IsOffer, find_replacements-IsOffer}
use ha_device_links.Swap.Applied.{references-rules_after}
use ha_device_links.Tests.Runs.{compiler}
use ha_device_links.Tests.Witnesses.{network-IsNetwork, rule-IsRule}
use ha_device_links.Tests.Samples.{handle, switch, lamp, capabilities_of_device, network, rule}

abbrev bulb : DeviceHandle
bulb = handle (b'9' ∷ []) (b'b' ∷ [])

abbrev renewed : Capabilities
renewed = (identity bulb, capabilities_of_device bulb) ∷ network

abbrev proposal_of : Result SwapProposal → SwapProposal
proposal_of (ok p) = p
proposal_of (err e) = record {
  old = lamp;
  new = bulb;
  same_model = false;
  mappings = [];
  rewrites = [];
  errors = [];
}

swaps : Unit {0}
unfolding compiler is_applicable unmapped_emitters rules_after references propose propose_with
    refusals rewrite_all rewrite rewrite_with rewrite_source compiled losses rewrite_targets
    rewrite_targets_from rewrite_target map_emitters emitters_used emitters_used_from mapped_source
    map_emitter map_first mapping covering map_covering refused rewrite_is_lossy backend_discrete
    new_rule with_enabled
swaps = tt

abbrev lamp_swap : SwapProposal
lamp_swap = proposal_of (propose lamp bulb (rule ∷ []) renewed [])

lamp_swap-made : propose lamp bulb (rule ∷ []) renewed [] ≡ ok lamp_swap
unfolding swaps
lamp_swap-made = refl

lamp_swap-is_applicable : is_applicable lamp_swap ≡ true
unfolding swaps
lamp_swap-is_applicable = refl

-- The switch that drives the lamp, replaced: its control is the mapping of the same id.
switch_swap-is_applicable :
    is_applicable (proposal_of (propose switch bulb (rule ∷ []) renewed [])) ≡ true
unfolding swaps
switch_swap-is_applicable = refl

renewed-IsNetwork : IsNetwork renewed
renewed-IsNetwork = record {
  keyed = (refl, network-IsNetwork.keyed);
  grouped = ((((λ h. cc), ((λ h. cc), tt)), tt), network-IsNetwork.grouped);
}

lamp-apart : identity bulb ≢ identity lamp
unfolding compiler
lamp-apart = ne_of_beq (identity bulb) (identity lamp) refl

propose-IsProposal_example :
    (p : SwapProposal) × (propose lamp bulb (rule ∷ []) renewed [] ≡ ok p)
    × IsProposal lamp bulb (rule ∷ []) renewed [] p
propose-IsProposal_example =
    propose-IsProposal lamp bulb (rule ∷ []) renewed [] renewed-IsNetwork (rule-IsRule, tt)

references-rules_after_example :
    All (λ r. references r (identity lamp) ≡ false) (rules_after lamp_swap (rule ∷ []))
references-rules_after_example =
    references-rules_after lamp bulb (rule ∷ []) renewed [] lamp_swap renewed-IsNetwork
      (rule-IsRule, tt) lamp-apart lamp_swap-made lamp_swap-is_applicable

rules_after-IsSameRest_example :
    IsSameRest lamp bulb (rule ∷ []) renewed [] (rules_after lamp_swap (rule ∷ []))
unfolding contains
rules_after-IsSameRest_example =
    rules_after-IsSameRest lamp bulb (rule ∷ []) renewed [] lamp_swap renewed-IsNetwork
      (rule-IsRule, tt) (refl, tt) lamp_swap-made

abbrev profile : Profile
profile = record { id = b'd' ∷ []; name = []; rules = rule ∷ [] }

profile-made : new_profile profile ≡ ok profile
unfolding swaps new_profile
profile-made = refl

new_profile-rules_after_example :
    new_profile (record profile { rules = rules_after lamp_swap (rule ∷ []) })
    ≡ ok (record profile { rules = rules_after lamp_swap (rule ∷ []) })
new_profile-rules_after_example =
    new_profile-rules_after lamp bulb profile renewed [] lamp_swap renewed-IsNetwork
      (rule-IsRule, tt) profile-made lamp_swap-made

-- The lamp is gone, and a bulb of its model is listed that no rule names.
find_replacements-IsOffer_example :
    All
      (IsOffer
        (rule ∷ [])
        ((identity switch, switch) ∷ (identity bulb, bulb) ∷ [])
        (zwave ∷ [])
        true)
      (find_replacements
        (rule ∷ [])
        ((identity switch, switch) ∷ (identity bulb, bulb) ∷ [])
        (zwave ∷ [])
        true)
find_replacements-IsOffer_example =
    find_replacements-IsOffer (rule ∷ []) ((identity switch, switch) ∷ (identity bulb, bulb) ∷ [])
      (zwave ∷ []) true

bulb-offered :
    map
      (λ (r : Replacement). r.candidates)
      (find_replacements
        (rule ∷ [])
        ((identity switch, switch) ∷ (identity bulb, bulb) ∷ [])
        (zwave ∷ [])
        true)
    ≡ (bulb ∷ []) ∷ []
unfolding swaps find_replacements find_from found_replacement add_replacement replacement_for
    replacement_at candidates_for all_handles naming_rules model_key
bulb-offered = refl
