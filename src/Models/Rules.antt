-- ===== src/Models/Rules.antt =====
-- models.py: rules and profiles, and what their constructors refuse.
use ha_device_links.Prelude.{
  Eq, Text, Discrete-Eq, ℕ, List, [], ◌∷◌, Option, Bool, ◌==◌, list_eq, contains, subset, nat_eq,
  if◌then◌else◌, ℕ_discrete,
}
use ha_device_links.Models.Errors.{
  no_target, no_feature, opposite_hybrid, duplicate_target, duplicate_rule, Result, ok, err, ◌>>◌,
}
use ha_device_links.Models.Enums.{
  Backend, Feature, Template, Direction, MirrorChoice, HybridKind, on_only, off_only, kind_eq,
  feature_eq,
}
use ha_device_links.Models.Devices.{DeviceHandle, identity}

pub record RuleSource : Type 0 where
  pub device : DeviceHandle
  pub endpoint : ℕ
  pub emitter_id : Text

pub record RuleTarget : Type 0 where
  pub device : DeviceHandle
  pub endpoint : Option ℕ

unfoldable pub target_discrete : Discrete RuleTarget
target_discrete = hlevel ℕ_discrete

instance abbrev pub target_eq : Eq RuleTarget
target_eq = Discrete-Eq target_discrete

-- The frozensets are lists; nothing below depends on the order or on repetitions in them.
pub record Rule : Type 0 where
  pub id : Text
  pub name : Text
  pub template : Template
  pub backend : Backend
  pub source : RuleSource
  pub targets : List RuleTarget
  pub features : List Feature
  pub direction : Direction
  pub mirror_source : MirrorChoice
  pub enabled : Bool
  pub hybrid : List HybridKind

abbrev pub opposite_hybrid_kinds : List HybridKind
opposite_hybrid_kinds = on_only ∷ off_only ∷ []

-- The loop over the targets, with the set `seen`.
unfoldable pub check_targets : Text → List RuleTarget → List RuleTarget → Result (Unit {0})
check_targets id seen [] = ok tt
check_targets id seen (t ∷ ts) =
    let rest = check_targets id (t ∷ seen) ts in
    if contains seen t then err (duplicate_target id (identity t.device) t.endpoint) else rest

-- `Rule.__post_init__`
unfoldable pub new_rule : Rule → Result Rule
unfolding check_targets
new_rule r =
    if r.targets == []
    then err (no_target r.id)
    else if r.features == []
    then err (no_feature r.id)
    else if subset opposite_hybrid_kinds r.hybrid
    then err (opposite_hybrid r.id)
    else (check_targets r.id [] r.targets >> ok r)

-- `replace` runs the checks of the constructor again.
unfoldable pub with_enabled : Rule → Bool → Result Rule
with_enabled r enabled = new_rule (record r { enabled = enabled })

pub record Profile : Type 0 where
  pub id : Text
  pub name : Text
  pub rules : List Rule

unfoldable pub check_ids : Text → List Text → List Rule → Result (Unit {0})
check_ids id seen [] = ok tt
check_ids id seen (r ∷ rs) =
    let rest = check_ids id (r.id ∷ seen) rs in
    if contains seen r.id then err (duplicate_rule id r.id) else rest

-- `Profile.__post_init__`
unfoldable pub new_profile : Profile → Result Profile
unfolding check_ids
new_profile p = check_ids p.id [] p.rules >> ok p
