-- ===== src/Models/Validation.antt =====
-- models.py: what the constructors of links, rules and profiles accept, and copies of them.
use ha_device_links.Prelude.{
  Text, List, [], ◌∷◌, map, some, Bool, false, ◌&&◌, ◌≡◌, ◌≢◌, ◌↔◌, refl, sym, contains, subset,
  all, ◌==◌, Distinct, Fresh, Fresh-Distinct, list_eq, nat_eq, option_eq, eq_iff, eq_refl,
  beq_of_ne, Bool-cases, inl, inr, arith,
}
use ha_device_links.Models.Errors.{ok}
use ha_device_links.Models.Enums.{on_only, off_only, kind_eq, feature_eq}
use ha_device_links.Models.Devices.{identity}
use ha_device_links.Models.Links.{Link, new_link, as_kwargs, single_group_of}
use ha_device_links.Models.Rules.{
  Rule, RuleTarget, Profile, new_rule, new_profile, with_enabled, check_targets, check_ids,
  target_eq,
}

-- What holds of every link that was constructed.
pub record IsLink (l : Link) : Type 0 where
  pub not_self : identity l.source ≢ identity l.target.handle
  pub has_group : l.emitter_group ≢ []

single_group_of-ne-nil : (s : Text) → single_group_of s ≢ some []
unfolding single_group_of
single_group_of-ne-nil [] h = cc
single_group_of-ne-nil (c ∷ []) h = ground arith
single_group_of-ne-nil (c ∷ d ∷ s) h = ground arith

-- A link that the constructor returns never drives its own device, and has a group.
pub new_link-IsLink : (l m : Link) → new_link l ≡ ok m → IsLink m
unfolding new_link
new_link-IsLink l m h = ground (
  arith,
  eq_iff (identity l.source) (identity l.target.handle),
  eq_iff l.emitter_group [],
  single_group_of-ne-nil l.emitter_id,
)

pub new_link_of_IsLink : (l : Link) → IsLink l → new_link l ≡ ok l
unfolding new_link
new_link_of_IsLink l v = rw (
  beq_of_ne (identity l.source) (identity l.target.handle) v.not_self,
  beq_of_ne l.emitter_group [] v.has_group,
)

-- A constructed link is rebuilt by the keyword arguments that it gives for a copy of itself, also
-- where these leave out the group because the control's name implies it.
pub new_link-as_kwargs : (l : Link) → IsLink l → new_link (as_kwargs l) ≡ ok l
unfolding new_link as_kwargs
new_link-as_kwargs l v = elim (Bool-cases (some l.emitter_group == single_group_of l.emitter_id)) [
  | inl implied ↦
      let e : some l.emitter_group ≡ single_group_of l.emitter_id =
        (eq_iff (some l.emitter_group) (single_group_of l.emitter_id)).0 implied in
      rw (implied, beq_of_ne (identity l.source) (identity l.target.handle) v.not_self)
        (rw (eq_refl {A = Text} []) (rw (sym e) refl))
  | inr stated ↦ rw (
    stated,
    beq_of_ne (identity l.source) (identity l.target.handle) v.not_self,
    beq_of_ne l.emitter_group [] v.has_group,
  )
]

-- What holds of every rule that was constructed.
pub record IsRule (r : Rule) : Type 0 where
  pub has_target : r.targets ≢ []
  pub has_feature : r.features ≢ []
  pub one_sided : (contains r.hybrid on_only && contains r.hybrid off_only) ≡ false
  pub distinct_targets : Distinct r.targets

check_targets-eq_iff :
    (id : Text) (seen ts : List RuleTarget) → (check_targets id seen ts ≡ ok tt) ↔ Fresh seen ts
unfolding check_targets
check_targets-eq_iff id seen [] = (λ h. tt, λ h. refl)
check_targets-eq_iff id seen (t ∷ ts) = ground (arith, check_targets-eq_iff id (t ∷ seen) ts)

check_ids-eq_iff :
    (id : Text) (seen : List Text) (rs : List Rule)
    → (check_ids id seen rs ≡ ok tt) ↔ Fresh seen (map (λ r. r.id) rs)
unfolding check_ids
check_ids-eq_iff id seen [] = (λ h. tt, λ h. refl)
check_ids-eq_iff id seen (r ∷ rs) = ground (arith, check_ids-eq_iff id (r.id ∷ seen) rs)

-- The constructor accepts a rule exactly when it has a target and a feature, does not ask for both
-- on-only and off-only, and names no target twice; and it returns the rule as it was given.
pub new_rule-eq_iff : (r s : Rule) → (new_rule r ≡ ok s) ↔ ((r ≡ s) × IsRule r)
unfolding new_rule subset all
new_rule-eq_iff r s = (
  λ h. ground (
    arith,
    h,
    eq_iff r.targets [],
    eq_iff r.features [],
    check_targets-eq_iff r.id [] r.targets,
    Fresh-Distinct r.targets,
  ),
  λ (e, v). ground (
    arith,
    e,
    v.one_sided,
    v.distinct_targets,
    beq_of_ne r.targets [] v.has_target,
    beq_of_ne r.features [] v.has_feature,
    check_targets-eq_iff r.id [] r.targets,
    Fresh-Distinct r.targets,
  ),
)

-- The constructor accepts a profile exactly when no two of its rules share an id.
pub new_profile-eq_iff :
    (p q : Profile) → (new_profile p ≡ ok q) ↔ ((p ≡ q) × Distinct (map (λ r. r.id) p.rules))
unfolding new_profile
new_profile-eq_iff p q =
    ground
      (arith, check_ids-eq_iff p.id [] p.rules, Fresh-Distinct (map (λ (r : Rule). r.id) p.rules))

-- Switching a constructed rule on or off never fails and changes nothing else.
pub with_enabled_lem :
    (r : Rule) (b : Bool) → IsRule r → with_enabled r b ≡ ok (record r { enabled = b })
unfolding with_enabled
with_enabled_lem r b v = (new_rule-eq_iff (record r { enabled = b }) _).1 (
  refl,
  record {
    has_target = v.has_target;
    has_feature = v.has_feature;
    one_sided = v.one_sided;
    distinct_targets = v.distinct_targets;
  },
)
