-- ===== src/Coordinator/Plans.antt =====
-- coordinator.py: the plan for a part of the devices and rules.
use ha_device_links.Prelude.{
  Text, List, [], ◌∷◌, ◌++◌, map, Option, some, none, Bool, true, keep, contains, get, keys, meet,
  sort, list_eq, nat_eq, list_ord, nat_ord,
}
use ha_device_links.Models.{
  identity, Link, ObservedLink, fingerprint, HybridLeg, ItemLink, item_link, PlanItem, Plan,
}
use ha_device_links.Backends.{ObservedDevice}
use ha_device_links.Planner.{build_plan}
use ha_device_links.Coordinator.State.{Coordinator, is_available}

pub record PlanScope : Type 0 where
  pub rule_ids : List Text
  pub device_identities : List Text

-- `_links_of` and `_hybrid_legs_of`
abbrev pub links_of : Coordinator → Text → List Link
links_of c id = elim (get c.compiled id) [ none ↦ [] | some r ↦ r.links ]

abbrev pub hybrid_legs_of : Coordinator → Text → List HybridLeg
hybrid_legs_of c id = elim (get c.compiled id) [ none ↦ [] | some r ↦ r.hybrid_legs ]

-- The devices that the links of some rules are written to.
unfoldable pub sources_of : Coordinator → List Text → List Text
sources_of c [] = []
sources_of c (id ∷ ids) = map (λ (l : Link). identity l.source) (links_of c id) ++ sources_of c ids

abbrev pub available : Coordinator → List Text
available c = keep (is_available c) (keys c.observed)

-- A narrowing by a set that is empty where all is meant.
abbrev pub narrowed : List Text → List Text → List Text → List Text
narrowed is [] wanted = is
narrowed is (_ ∷ _) wanted = meet is wanted

-- `identities_in_scope`
unfoldable pub identities_in_scope : Coordinator → Option PlanScope → List Text
unfolding sources_of
identities_in_scope c none = available c
identities_in_scope c (some scope) =
    narrowed (narrowed (available c) scope.device_identities scope.device_identities) scope.rule_ids
      (sources_of c scope.rule_ids)

abbrev pub links_in : Option ObservedDevice → List ObservedLink
links_in none = []
links_in (some d) = d.links

abbrev pub links_at : Coordinator → Text → List ObservedLink
links_at c i = links_in (get c.observed i)

unfoldable pub observed_at : Coordinator → List Text → List ObservedLink
observed_at c [] = []
observed_at c (i ∷ is) = links_at c i ++ observed_at c is

abbrev pub is_claimed : Option Text → Text → List Text → List Text → Bool
is_claimed none f rule_ids selected = contains selected f
is_claimed (some id) f rule_ids selected = contains rule_ids id

abbrev pub is_wanted_link : Option ItemLink → List Text → List Text → Bool
is_wanted_link none rule_ids selected = true
is_wanted_link (some l) rule_ids selected =
    is_claimed (item_link l).rule_id (fingerprint (item_link l)) rule_ids selected

-- `_is_wanted`
unfoldable pub is_wanted : PlanItem → List Text → List Text → Bool
is_wanted item rule_ids selected = is_wanted_link item.link rule_ids selected

unfoldable pub narrowed_by : Plan → List Text → List Text → Plan
unfolding is_wanted
narrowed_by plan [] selected = plan
narrowed_by plan (id ∷ ids) selected = record plan {
  items = keep (λ (i : PlanItem). is_wanted i (id ∷ ids) selected) plan.items;
}

-- `_narrowed_to_rules`
unfoldable pub narrowed_to_rules : Plan → Option PlanScope → List Text → Plan
unfolding narrowed_by
narrowed_to_rules plan none selected = plan
narrowed_to_rules plan (some scope) selected = narrowed_by plan scope.rule_ids selected

abbrev pub desired_or : Coordinator → Option (List Link) → List Link
desired_or c none = c.desired
desired_or c (some ls) = ls

-- `async_plan`
unfoldable pub async_plan :
    (Text → Text) → Coordinator → Option PlanScope → List Text → Option (List Link) → Plan
unfolding identities_in_scope observed_at narrowed_to_rules
async_plan sha256 c scope selected desired =
    let is = identities_in_scope c scope in
    narrowed_to_rules
      (build_plan sha256
        (keep (λ (l : Link). contains is (identity l.source)) (desired_or c desired))
        (observed_at c (sort is)) c.capabilities selected)
      scope selected
