-- ===== src/Backends/Zwave/Curated.antt =====
-- zwave_protocol.py `resolve_emitters`: a curated entry for the device's model, where it agrees with
-- what the device reports.
use ha_device_links.Prelude.{
  Text, text, Dict, ℕ, List, [], ◌∷◌, ◌++◌, map, Option, some, none, false, all, contains, dedup,
  get, put, values, sort, sort_by, list_eq, nat_eq, nat_ord, list_ord, if◌then◌else◌,
}
use ha_device_links.Models.{Feature, feature_eq, feature_text, Emitter}
use ha_device_links.Backends.Zwave.Groups.{
  AssociationGroup, ReportedGroups, features_of_group, number_of,
}
use ha_device_links.Backends.Zwave.Derive.{
  Warning, not_reported, reported_lifeline, not_carried, usable_warnings, least, collect,
  sorted_emitters, derive_emitters,
}

pub record ProfileEmitter : Type 0 where
  pub emitter_id : Text
  pub label : Text
  pub kind : Text
  pub actions : Dict Feature Text
  pub capacity_override : Option ℕ
  pub semantics : Option Text
  pub scene_id : Option ℕ
  pub indicator_id : Option ℕ

-- What an action of a curated control contradicts, by the group that it names.
unfoldable pub action_conflicts : Text → Feature → Text → Option AssociationGroup → List Warning
action_conflicts emitter_id f id none = not_reported emitter_id f id ∷ []
action_conflicts emitter_id f id (some g) =
    if g.is_lifeline
    then reported_lifeline emitter_id f id ∷ []
    else if contains (features_of_group (some g.issued_commands)) f
    then []
    else not_carried emitter_id f id g ∷ []

unfoldable pub emitter_conflicts : ReportedGroups → Text → List (Feature × Text) → List Warning
unfolding action_conflicts
emitter_conflicts groups emitter_id [] = []
emitter_conflicts groups emitter_id ((f, id) ∷ rest) =
    action_conflicts emitter_id f id (get groups id) ++ emitter_conflicts groups emitter_id rest

-- `_entry_conflicts`
unfoldable pub entry_conflicts : List ProfileEmitter → ReportedGroups → List Warning
unfolding emitter_conflicts
entry_conflicts [] groups = []
entry_conflicts (e ∷ es) groups =
    emitter_conflicts groups e.emitter_id
      (sort_by (λ (a : Feature × Text). feature_text a.0) e.actions)
    ++ entry_conflicts es groups

abbrev pub cons_group :
    Option AssociationGroup → Option (List AssociationGroup) → Option (List AssociationGroup)
cons_group (some g) (some gs) = some (g ∷ gs)
cons_group _ _ = none

-- `[groups[group_id] for group_id in group_ids]`
unfoldable pub members_named : ReportedGroups → List Text → Option (List AssociationGroup)
members_named groups [] = some []
members_named groups (id ∷ ids) = cons_group (get groups id) (members_named groups ids)

-- The capacity of a curated control: `min` of nothing raises.
unfoldable pub capacity_by : Option ℕ → List AssociationGroup → Option ℕ
capacity_by (some n) members = some n
capacity_by none [] = none
capacity_by none (g ∷ gs) =
    some (least g.max_nodes (map (λ (h : AssociationGroup). h.max_nodes) gs))

abbrev pub id_or : Option Text → Text → Text
id_or none other = other
id_or (some id) other = id

unfoldable pub curated_by :
    ProfileEmitter → List Text → Option Text → List AssociationGroup → Option ℕ → Option Emitter
curated_by e ids derived members none = none
curated_by e ids derived members (some capacity) = some (record {
  emitter_id = id_or derived e.emitter_id;
  label = e.label;
  endpoint = 0;
  group_ids = ids;
  actions = e.actions;
  capacity = capacity;
  supports_endpoint_targets = all (λ (g : AssociationGroup). g.multi_channel) members;
  is_lifeline = false;
  grouping = text "profile_db";
  semantics = e.semantics;
  scene_id = e.scene_id;
  indicator_id = e.indicator_id;
})

unfoldable pub curated_with :
    ProfileEmitter → List Text → Option Text → Option (List AssociationGroup) → Option Emitter
unfolding capacity_by curated_by
curated_with e ids derived none = none
curated_with e ids derived (some members) =
    curated_by e ids derived members (capacity_by e.capacity_override members)

abbrev pub group_ids_of : ProfileEmitter → List Text
group_ids_of e = sort_by number_of (dedup (values e.actions))

-- `_curated_emitter`; a `frozenset` of ids is the sorted list of them.
unfoldable pub curated_emitter :
    ReportedGroups → Dict (List Text) Text → ProfileEmitter → Option Emitter
unfolding members_named curated_with
curated_emitter groups derived_ids e =
    let ids = group_ids_of e in
    curated_with e ids (get derived_ids (sort (dedup ids))) (members_named groups ids)

unfoldable pub derived_ids_from : Dict (List Text) Text → List Emitter → Dict (List Text) Text
derived_ids_from d [] = d
derived_ids_from d (e ∷ es) = derived_ids_from (put d (sort (dedup e.group_ids)) e.emitter_id) es

unfoldable pub curated :
    ReportedGroups → List ProfileEmitter → Option (List Emitter) → Option (List Emitter)
unfolding curated_emitter derived_ids_from
curated groups entry none = none
curated groups entry (some derived) =
    sorted_emitters (collect (curated_emitter groups (derived_ids_from [] derived)) entry)

unfoldable pub resolve_with :
    ReportedGroups
    → List ProfileEmitter
    → List Warning
    → Option (List Emitter)
    → Option (List Emitter)
unfolding curated
resolve_with groups entry [] derived = curated groups entry derived
resolve_with groups entry (w ∷ ws) derived = derived

-- `resolve_emitters`; of an entry only its controls are used.
unfoldable pub resolve_emitters :
    ReportedGroups → Option (List ProfileEmitter) → Option (List Emitter)
unfolding derive_emitters resolve_with entry_conflicts
resolve_emitters groups none = derive_emitters groups
resolve_emitters groups (some entry) =
    resolve_with groups entry (entry_conflicts entry groups) (derive_emitters groups)

-- The warnings that `resolve_emitters` appends
unfoldable pub resolve_warnings : ReportedGroups → Option (List ProfileEmitter) → List Warning
unfolding usable_warnings entry_conflicts
resolve_warnings groups none = usable_warnings groups
resolve_warnings groups (some entry) = usable_warnings groups ++ entry_conflicts entry groups
