-- ===== src/Swap/Mapping.antt =====
-- swap.py: which control of the replacement takes over from which.
use ha_device_links.Prelude.{
  Text, Dict, List, [], ◌∷◌, ◌++◌, Option, none, some, keys, get, put, has, index_by, keep, subset,
  list_eq, nat_eq, ◌==◌, if◌then◌else◌,
}
use ha_device_links.Models.{Feature, feature_eq, Emitter, DeviceCapabilities, Rule, identity}
use ha_device_links.Compiler.{sorted_features}
use ha_device_links.Swap.Types.{
  MappingBasis, same_emitter_id, same_features, chosen, unmapped, EmitterMapping,
}

abbrev pub features_of : Option (List Feature) → List Feature
features_of none = []
features_of (some fs) = fs

-- The loop of `emitters_used`; a set's union is the two lists in a row.
unfoldable pub emitters_used_from :
    Dict Text (List Feature) → List Rule → Text → Dict Text (List Feature)
emitters_used_from used [] device = used
emitters_used_from used (rule ∷ rules) device =
    let skipped = emitters_used_from used rules device in
    let id = rule.source.emitter_id in
    let counted =
      emitters_used_from (put used id (features_of (get used id) ++ rule.features)) rules device in
    if identity rule.source.device == device then counted else skipped

unfoldable pub emitters_used : List Rule → Text → Dict Text (List Feature)
unfolding emitters_used_from
emitters_used rules device = emitters_used_from [] rules device

-- `_mapping`
unfoldable pub mapping : Text → Emitter → MappingBasis → List Feature → EmitterMapping
mapping old_emitter_id e basis needed = record {
  old_emitter_id = old_emitter_id;
  new_emitter_id = some e.emitter_id;
  new_label = some e.label;
  new_endpoint = some e.endpoint;
  basis = basis;
  features_needed = needed;
  features_carried = keep (λ f. has e.actions f) needed;
}

abbrev pub no_mapping : Text → List Feature → EmitterMapping
no_mapping old_emitter_id needed = record {
  old_emitter_id = old_emitter_id;
  new_emitter_id = none;
  new_label = none;
  new_endpoint = none;
  basis = unmapped;
  features_needed = needed;
  features_carried = [];
}

-- The one control that covers everything, if it is one.
unfoldable pub map_covering : Text → List Feature → List Emitter → EmitterMapping
unfolding mapping
map_covering old needed (e ∷ []) = mapping old e same_features needed
map_covering old needed _ = no_mapping old needed

unfoldable pub covering : List Feature → List Emitter → List Emitter
covering needed es = keep (λ (e : Emitter). subset needed (keys e.actions)) es

-- `chosen is not None and chosen in offered`
abbrev pub offered_choice : Dict Text Emitter → Option Text → Option Emitter
offered_choice offered none = none
offered_choice offered (some id) = get offered id

-- The returns of `_map_emitter`, from the control that was chosen and the one of the same id.
unfoldable pub map_first :
    Text → List Feature → List Emitter → Option Emitter → Option Emitter → EmitterMapping
unfolding map_covering covering mapping
map_first old needed es (some e) same = mapping old e chosen (sorted_features needed)
map_first old needed es none (some e) = mapping old e same_emitter_id (sorted_features needed)
map_first old needed es none none = map_covering old (sorted_features needed) (covering needed es)

-- `_map_emitter`
unfoldable pub map_emitter : Text → List Feature → DeviceCapabilities → Option Text → EmitterMapping
unfolding map_first
map_emitter old needed new_capabilities choice =
    let offered = index_by (λ (e : Emitter). e.emitter_id) new_capabilities.emitters in
    map_first old needed new_capabilities.emitters (offered_choice offered choice) (get offered old)
