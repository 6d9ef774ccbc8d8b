-- ===== src/Tests/Groups.antt =====
-- The groups of a dimmer, the controls that they make, and the results on them.
use ha_device_links.Prelude.{
  Text, text, List, [], ◌∷◌, ◌≡◌, refl, map, Option, some, none, Bool, true, false, Distinct,
  contains, keys, has, get, dedup, put, any, values, all, keep, sort_by, insert_by, list_leq,
  pair_beq, option_beq, list_eq, list_beq, nat_eq,
}
use ha_device_links.Models.{on_off, level_hold, Emitter, feature_discrete, feature_text}
use ha_device_links.Backends.Zwave.{
  AssociationGroup, ReportedGroups, IssuedCommands, ProfileEmitter, derive_emitters,
  resolve_emitters, features_of_group, number_of, actions_from, are_disjoint, build_emitter,
  by_profile, by_profile_from, collect, named_emitter, profile_emitter,
  profile_identifies_one_control, put_features, rstrip, shared_label, shared_prefix, shorten,
  usable_groups, features_from, features_of_class,
}
use ha_device_links.Backends.Zwave.Carried.{AreOffered}
use ha_device_links.Backends.Zwave.Offered.{resolve_emitters-AreOffered}

abbrev group : Bool → IssuedCommands → Text → AssociationGroup
group is_lifeline issued label = record {
  is_lifeline = is_lifeline;
  issued_commands = issued;
  label = label;
  max_nodes = 5;
  multi_channel = true;
  profile = some 0x2001;
}

abbrev dimmer : ReportedGroups
dimmer =
    (text "1", group true ((38, 3 ∷ []) ∷ []) (text "Lifeline"))
    ∷ (text "2", group false ((32, 1 ∷ []) ∷ []) (text "Paddle: on"))
    ∷ (text "3", group false ((38, 4 ∷ 5 ∷ []) ∷ []) (text "Paddle: dim"))
    ∷ []

abbrev curated_paddle : ProfileEmitter
curated_paddle = record {
  emitter_id = text "paddle";
  label = text "Paddle";
  kind = text "paddle";
  actions = (on_off, text "2") ∷ (level_hold, text "3") ∷ [];
  capacity_override = none;
  semantics = none;
  scene_id = none;
  indicator_id = none;
}

dimmer-Distinct : Distinct (keys dimmer)
unfolding keys contains list_beq text
dimmer-Distinct = (refl, (refl, (refl, tt)))

resolve_emitters-AreOffered_example :
    AreOffered dimmer (resolve_emitters dimmer (some (curated_paddle ∷ [])))
resolve_emitters-AreOffered_example =
    resolve_emitters-AreOffered dimmer (some (curated_paddle ∷ [])) dimmer-Distinct
      ((λ h. cc h), tt)

abbrev controls : Option (List Emitter) → List (Text × List Text)
controls none = []
controls (some es) = map (λ (e : Emitter). (e.label, e.group_ids)) es

-- The labels share their start, and the groups are two sides of one control.
derived : controls (derive_emitters dimmer) ≡ (text "Paddle", text "2" ∷ text "3" ∷ []) ∷ []
unfolding derive_emitters has get features_of_group dedup pair_beq put option_beq list_beq any
    values all contains keep feature_discrete sort_by number_of actions_from are_disjoint
    build_emitter by_profile by_profile_from collect named_emitter profile_emitter
    profile_identifies_one_control put_features rstrip shared_label shared_prefix shorten
    usable_groups features_from features_of_class feature_text insert_by list_leq text
derived = refl
