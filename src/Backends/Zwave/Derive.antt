-- ===== src/Backends/Zwave/Derive.antt =====
-- zwave_protocol.py `derive_emitters`: the controls of a device by what its groups report. `none` is the
-- exception of an empty list's first element or minimum.
use ha_device_links.Prelude.{
  Text, text, Dict, ℕ, zero, suc, List, [], ◌∷◌, ◌++◌, map, Option, some, none, Bool, true, false,
  not, ◌&&◌, any, all, contains, get, has, put, values, length, ltb, sort_by, ◌==◌, list_eq, nat_eq,
  option_eq, nat_ord, list_ord, if◌then◌else◌,
}
use ha_device_links.Models.{Feature, feature_eq, feature_text, Emitter}
use ha_device_links.Backends.Zwave.Groups.{
  AssociationGroup, ReportedGroups, UsableGroup, features_of_group, number_of,
}

-- What a warning is made of.
pub data Warning : Type 0 where
  no_command : (group_id : Text) (group : AssociationGroup) → Warning
  not_reported reported_lifeline :
      (emitter_id : Text) (feature : Feature) (group_id : Text) → Warning
  not_carried :
      (emitter_id : Text) (feature : Feature) (group_id : Text) (group : AssociationGroup) → Warning

abbrev pub usable_group :
    Text → AssociationGroup → List Feature → List UsableGroup → List UsableGroup
usable_group id g [] rest = rest
usable_group id g (f ∷ fs) rest = record { group_id = id; group = g; features = f ∷ fs } ∷ rest

-- `_usable_groups`, and its warnings
unfoldable pub usable_groups : ReportedGroups → List UsableGroup
usable_groups [] = []
usable_groups ((id, g) ∷ groups) =
    let rest = usable_groups groups in
    if g.is_lifeline
    then rest
    else usable_group id g (features_of_group (some g.issued_commands)) rest

unfoldable pub usable_warnings : ReportedGroups → List Warning
usable_warnings [] = []
usable_warnings ((id, g) ∷ groups) =
    let rest = usable_warnings groups in
    if g.is_lifeline then rest else elim (features_of_group (some g.issued_commands)) [
      | [] ↦ no_command id g ∷ rest
      | f ∷ fs ↦ rest
    ]

abbrev pub members_in : Option (List UsableGroup) → List UsableGroup
members_in none = []
members_in (some ms) = ms

abbrev pub members_of : Dict (Option ℕ) (List UsableGroup) → Option ℕ → List UsableGroup
members_of d p = members_in (get d p)

unfoldable pub by_profile_from :
    Dict (Option ℕ) (List UsableGroup) → List UsableGroup → Dict (Option ℕ) (List UsableGroup)
by_profile_from d [] = d
by_profile_from d (m ∷ ms) =
    by_profile_from (put d m.group.profile (members_of d m.group.profile ++ (m ∷ []))) ms

-- `_by_profile`
unfoldable pub by_profile : List UsableGroup → Dict (Option ℕ) (List UsableGroup)
unfolding by_profile_from
by_profile usable = by_profile_from [] usable

unfoldable pub are_disjoint : List Feature → List UsableGroup → Bool
are_disjoint seen [] = true
are_disjoint seen (m ∷ ms) =
    let rest = are_disjoint (seen ++ m.features) ms in
    if any (contains seen) m.features then false else rest

-- `_features_are_disjoint`
abbrev pub features_are_disjoint : List UsableGroup → Bool
features_are_disjoint members = are_disjoint [] members

-- `_profile_identifies_one_control`
unfoldable pub profile_identifies_one_control : Dict (Option ℕ) (List UsableGroup) → Bool
unfolding are_disjoint
profile_identifies_one_control d =
    if has d none
    then false
    else if not (any (λ (ms : List UsableGroup). ltb 1 (length ms)) (values d))
    then false
    else all features_are_disjoint (values d)

abbrev pub starts_with : Text → Text → Bool
starts_with s [] = true
starts_with [] (p ∷ ps) = false
starts_with (c ∷ s) (p ∷ ps) = c == p && starts_with s ps

-- `prefix[:-1]`
abbrev pub all_but_last : Text → Text
all_but_last [] = []
all_but_last (c ∷ []) = []
all_but_last (c ∷ d ∷ s) = c ∷ all_but_last (d ∷ s)

-- The loop of `_shared_label` at one label: each round takes a character off, so there are no more
-- rounds than characters, and the empty text starts every label.
unfoldable pub shorten : ℕ → Text → Text → Text
shorten zero label prefix = prefix
shorten (suc n) label prefix =
    let shorter = shorten n label (all_but_last prefix) in
    if starts_with label prefix then prefix else shorter

unfoldable pub shared_prefix : Text → List Text → Text
unfolding shorten
shared_prefix prefix [] = prefix
shared_prefix prefix (label ∷ labels) = shared_prefix (shorten (length prefix) label prefix) labels

abbrev pub strip_one : Text → ℕ → Text → Text
strip_one trailing c [] = if contains trailing c then [] else c ∷ []
strip_one trailing c (d ∷ s) = c ∷ d ∷ s

-- `s.rstrip(trailing)`
unfoldable pub rstrip : Text → Text → Text
rstrip trailing [] = []
rstrip trailing (c ∷ s) = strip_one trailing c (rstrip trailing s)

abbrev pub label_trailing : Text
label_trailing = b' ' ∷ 9 ∷ b'-' ∷ b'/' ∷ b':' ∷ b',' ∷ b'.' ∷ b'(' ∷ []

-- `_shared_label`, of a first label and the others
unfoldable pub shared_label : Text → List Text → Text
unfolding shared_prefix rstrip
shared_label first others = rstrip label_trailing (shared_prefix first others)

unfoldable pub put_features : Dict Feature Text → Text → List Feature → Dict Feature Text
put_features d id [] = d
put_features d id (f ∷ fs) = put_features (put d f id) id fs

unfoldable pub actions_from : Dict Feature Text → List UsableGroup → Dict Feature Text
unfolding put_features
actions_from d [] = d
actions_from d (m ∷ ms) =
    actions_from (put_features d m.group_id (sort_by feature_text m.features)) ms

-- `min` of a first number and the others
abbrev pub least : ℕ → List ℕ → ℕ
least n [] = n
least n (m ∷ ms) = least (if ltb m n then m else n) ms

-- `_build_emitter`
unfoldable pub build_emitter : List UsableGroup → Text → Text → Option Emitter
unfolding actions_from
build_emitter [] label grouping = none
build_emitter (m ∷ ms) label grouping = some (record {
  emitter_id = b'g' ∷ m.group_id;
  label = label;
  endpoint = 0;
  group_ids = map (λ (u : UsableGroup). u.group_id) (m ∷ ms);
  actions = actions_from [] (m ∷ ms);
  capacity = least m.group.max_nodes (map (λ (u : UsableGroup). u.group.max_nodes) ms);
  supports_endpoint_targets = all (λ (u : UsableGroup). u.group.multi_channel) (m ∷ ms);
  is_lifeline = false;
  grouping = grouping;
  semantics = none;
  scene_id = none;
  indicator_id = none;
})

abbrev pub text_or : Text → Text → Text
text_or [] other = other
text_or (c ∷ s) other = c ∷ s

unfoldable pub named_emitter : List UsableGroup → Option Emitter
unfolding build_emitter shared_label
named_emitter [] = none
named_emitter (m ∷ ms) =
    build_emitter (m ∷ ms)
      (text_or (shared_label m.group.label (map (λ (u : UsableGroup). u.group.label) ms))
        m.group.label)
      (text "profile")

-- `_profile_emitter`
unfoldable pub profile_emitter : List UsableGroup → Option Emitter
unfolding named_emitter
profile_emitter members =
    named_emitter (sort_by (λ (u : UsableGroup). number_of u.group_id) members)

abbrev pub single_emitter : UsableGroup → Option Emitter
single_emitter m = build_emitter (m ∷ []) m.group.label (text "per_group")

abbrev pub cons_emitter : Option Emitter → Option (List Emitter) → Option (List Emitter)
cons_emitter (some e) (some es) = some (e ∷ es)
cons_emitter _ _ = none

-- The results of a comprehension, if none of them raises.
unfoldable pub collect {ℓ} : {A : Type ℓ} → (A → Option Emitter) → List A → Option (List Emitter)
collect f [] = some []
collect f (x ∷ xs) = cons_emitter (f x) (collect f xs)

-- The number of the first group, by which controls are sorted; a control has one.
abbrev pub first_number : Emitter → ℕ
first_number e = elim e.group_ids [ [] ↦ 0 | id ∷ ids ↦ number_of id ]

abbrev pub sorted_emitters : Option (List Emitter) → Option (List Emitter)
sorted_emitters none = none
sorted_emitters (some es) = some (sort_by first_number es)

-- `derive_emitters`
unfoldable pub derive_emitters : ReportedGroups → Option (List Emitter)
unfolding usable_groups by_profile profile_identifies_one_control profile_emitter build_emitter
    collect
derive_emitters groups =
    let usable = usable_groups groups in
    let d = by_profile usable in
    sorted_emitters (
      if profile_identifies_one_control d
      then collect profile_emitter (values d)
      else collect single_emitter usable)
