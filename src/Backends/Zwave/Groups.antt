-- ===== src/Backends/Zwave/Groups.antt =====
-- zwave_protocol.py: association groups, and the features that their commands carry.
use ha_device_links.Prelude.{
  Text, text, Dict, ℕ, ◌+◌, ◌-◌, ◌*◌, List, [], ◌∷◌, ◌++◌, Option, some, none, Bool, ◌||◌, contains,
  dedup, get, leb, ◌==◌, list_eq, nat_eq, pair_eq, if◌then◌else◌,
}
use ha_device_links.Models.{
  Feature, feature_eq, on_off, level_set, level_hold, scene, color, status_report,
}

-- `_FEATURE_BY_COMMAND`, by command class and command
abbrev pub feature_by_command : Dict (ℕ × ℕ) Feature
feature_by_command =
    ((32, 1), on_off)
    ∷ ((37, 1), on_off)
    ∷ ((38, 1), level_set)
    ∷ ((38, 4), level_hold)
    ∷ ((38, 5), level_hold)
    ∷ ((38, 3), status_report)
    ∷ ((43, 1), scene)
    ∷ []

-- The commands by command class; a class that the driver names by a text stands as its number.
abbrev pub IssuedCommands : Type 0
IssuedCommands = Dict ℕ (List ℕ)

abbrev pub with_feature : Option Feature → List Feature → List Feature
with_feature none fs = fs
with_feature (some f) fs = f ∷ fs

unfoldable pub features_of_class : ℕ → List ℕ → List Feature
features_of_class class [] = []
features_of_class class (command ∷ commands) =
    with_feature (get feature_by_command (class, command)) (features_of_class class commands)

unfoldable pub features_from : IssuedCommands → List Feature
unfolding features_of_class
features_from [] = []
features_from ((class, commands) ∷ rest) = features_of_class class commands ++ features_from rest

-- `features_of_group`
unfoldable pub features_of_group : Option IssuedCommands → List Feature
unfolding features_from
features_of_group none = []
features_of_group (some issued) = dedup (features_from issued)

pub record AssociationGroup : Type 0 where
  pub is_lifeline : Bool
  pub issued_commands : IssuedCommands
  pub label : Text
  pub max_nodes : ℕ
  pub multi_channel : Bool
  pub profile : Option ℕ

-- What a device reports, by the number of the group as a text.
abbrev pub ReportedGroups : Type 0
ReportedGroups = Dict Text AssociationGroup

-- `_UsableGroup`
pub record UsableGroup : Type 0 where
  pub group_id : Text
  pub group : AssociationGroup
  pub features : List Feature

-- `is_long_range`
unfoldable pub is_long_range : ℕ → Option ℕ → Bool
is_long_range node none = leb 256 node
is_long_range node (some protocol) = protocol == 1 || leb 256 node

-- `is_lifeline_group`: a group that the device does not report is its lifeline if it is group 1.
unfoldable pub is_lifeline_group : ReportedGroups → Text → Bool
is_lifeline_group groups id = elim (get groups id) [
  | none ↦ id == text "1"
  | some g ↦ g.is_lifeline
]

abbrev pub primary_feature_order : List Feature
primary_feature_order = on_off ∷ level_set ∷ level_hold ∷ scene ∷ color ∷ status_report ∷ []

abbrev pub first_in : List Feature → List Feature → Feature
first_in [] features = status_report
first_in (f ∷ fs) features = if contains features f then f else first_in fs features

-- `feature_of_group`
unfoldable pub feature_of_group : AssociationGroup → Feature
unfolding features_of_group
feature_of_group g = first_in primary_feature_order (features_of_group (some g.issued_commands))

abbrev number_from : ℕ → Text → ℕ
number_from n [] = n
number_from n (c ∷ s) = number_from (10 * n + (c - b'0')) s

-- `int(text)`, for the decimal digits that the driver's keys of groups are made of; at any other text
-- the code raises ValueError, and this is some number.
unfoldable pub number_of : Text → ℕ
number_of s = number_from 0 s
