-- ===== src/Coordinator/Scoped.antt =====
-- coordinator.py `async_plan`: a plan keeps to the devices and rules that it was asked for.
use ha_device_links.Prelude.{
  Text, List, [], ◌∷◌, Option, some, none, true, false, ◌||◌, ◌≡◌, ◌⊎◌, refl, inl, inr, All,
  All-map, All-of_mem, mem-All, Memᴰ, mem-keep, contains→mem, contains, keep, sort, is_some, subst,
  list_eq, nat_eq, list_ord, nat_ord,
}
use ha_device_links.Models.{
  identity, Link, ObservedLink, ItemLink, plain_link, observed_link, item_link, fingerprint,
  PlanItem, Plan, Diagnostic,
}
use ha_device_links.Planner.{build_plan, add_item, remove_item, blocked_item, entry_fingerprint}
use ha_device_links.Planner.Safety.{IsJustified, removal, addition, no_room, build_plan-IsJustified}
use ha_device_links.Coordinator.State.{Coordinator}
use ha_device_links.Coordinator.Plans.{
  PlanScope, identities_in_scope, links_at, observed_at, is_wanted_link, is_wanted, narrowed_by,
  narrowed_to_rules, desired_or, async_plan,
}
use ha_device_links.Coordinator.Scope.{
  IsInScope, IsNarrowed, AreFiled, is_claimed-IsOfRules, identities_in_scope-IsInScope,
  mem-observed_at, mem-sort,
}

module _ (c : Coordinator) (scope : Option PlanScope) (selected : List Text)
    (desired : Option (List Link)) where
  -- A link that an answering device of the scope holds, that is no system link, and that is owned or
  -- was selected; or a desired link of such a device, to add or to hold back.
  pub data IsPlanned : PlanItem → Type 0 where
    takes_off :
        (e : ObservedLink)
        → IsInScope c scope (identity e.link.source)
        → Memᴰ e (links_at c (identity e.link.source))
        → e.is_system ≡ false
        → ((owner : Text) × (e.managed_by ≡ some owner)) ⊎ Memᴰ (fingerprint e.link) selected
        → IsPlanned (remove_item e)
    puts_on :
        (l : Link)
        → Memᴰ l (desired_or c desired)
        → IsInScope c scope (identity l.source)
        → IsPlanned (add_item l)
    holds_back :
        (l : Link) (reason : Diagnostic)
        → Memᴰ l (desired_or c desired)
        → IsInScope c scope (identity l.source)
        → IsPlanned (blocked_item l reason)

  abbrev is : List Text
  is = identities_in_scope c scope

  abbrev wanted : List Link
  wanted = keep (λ (l : Link). contains is (identity l.source)) (desired_or c desired)

  wanted-IsInScope :
      (l : Link)
      → Memᴰ l wanted
      → Memᴰ l (desired_or c desired) × IsInScope c scope (identity l.source)
  wanted-IsInScope l m =
      let (a, b) =
        mem-keep (λ (l : Link). contains is (identity l.source)) (desired_or c desired) m in
      (
        a,
        identities_in_scope-IsInScope c scope (identity l.source)
            (contains→mem is (identity l.source) b),
      )

  IsJustified-IsPlanned :
      (item : PlanItem)
      → AreFiled c.observed
      → IsJustified wanted (observed_at c (sort is)) c.capabilities selected item
      → IsPlanned item
  IsJustified-IsPlanned _ filed (removal e m plain unwanted chosen) =
      let (n, held) = mem-observed_at c (sort is) e filed m in
      takes_off e
        (identities_in_scope-IsInScope c scope (identity e.link.source)
          (mem-sort is (identity e.link.source) n))
        held plain (owned_or_selected e.managed_by refl chosen)
    where
      owned_or_selected :
          (o : Option Text)
          → e.managed_by ≡ o
          → (is_some o || contains selected (entry_fingerprint e)) ≡ true
          → ((owner : Text) × (e.managed_by ≡ some owner)) ⊎ Memᴰ (fingerprint e.link) selected
      owned_or_selected none q k = inr (contains→mem selected (fingerprint e.link) k)
      owned_or_selected (some owner) q k = inl (owner, q)
  IsJustified-IsPlanned _ filed (addition l capacity m absent room) =
      let (a, b) = wanted-IsInScope l m in puts_on l a b
  IsJustified-IsPlanned _ filed (no_room l reason m absent) =
      let (a, b) = wanted-IsInScope l m in holds_back l reason a b

  -- Every item that is planned has a link.
  IsPlanned-link : (item : PlanItem) → IsPlanned item → (l : ItemLink) × (item.link ≡ some l)
  IsPlanned-link _ (takes_off e a b plain chosen) = (observed_link e, refl)
  IsPlanned-link _ (puts_on l a b) = (plain_link l, refl)
  IsPlanned-link _ (holds_back l reason a b) = (plain_link l, refl)

  is_wanted-IsNarrowed :
      (s : PlanScope) (item : PlanItem)
      → IsPlanned item
      → (s.rule_ids ≡ []) ⊎ (is_wanted item s.rule_ids selected ≡ true)
      → IsNarrowed (some s) selected item
  unfolding is_wanted
  is_wanted-IsNarrowed s item p (inl all) = inl all
  is_wanted-IsNarrowed s item p (inr w) =
      let (l, e) = IsPlanned-link item p in
      inr (
        l,
        e,
        is_claimed-IsOfRules (item_link l) (item_link l).rule_id s.rule_ids selected refl
            (subst (λ o. is_wanted_link o s.rule_ids selected ≡ true) e w),
      )

narrowed_by-IsNarrowed :
    (P : PlanItem → Type 0) (plan : Plan) (ids selected : List Text)
    → All P plan.items
    → All
        (λ item. P item × ((ids ≡ []) ⊎ (is_wanted item ids selected ≡ true)))
        (narrowed_by plan ids selected).items
unfolding narrowed_by
narrowed_by-IsNarrowed P plan [] selected h = All-map plan.items (λ item p. (p, inl refl)) h
narrowed_by-IsNarrowed P plan (id ∷ ids) selected h =
    All-of_mem (keep (λ (i : PlanItem). is_wanted i (id ∷ ids) selected) plan.items) (λ item m.
      let (a, b) = mem-keep (λ (i : PlanItem). is_wanted i (id ∷ ids) selected) plan.items m in
      (mem-All P plan.items h a, inr b))

narrowed_to_rules-IsNarrowed :
    (c : Coordinator) (plan : Plan) (scope : Option PlanScope) (selected : List Text)
    (desired : Option (List Link))
    → All (IsPlanned c scope selected desired) plan.items
    → All
        (λ item. IsPlanned c scope selected desired item × IsNarrowed scope selected item)
        (narrowed_to_rules plan scope selected).items
unfolding narrowed_to_rules
narrowed_to_rules-IsNarrowed c plan none selected desired h =
    All-map plan.items (λ item p. (p, tt)) h
narrowed_to_rules-IsNarrowed c plan (some s) selected desired h =
    All-map (narrowed_by plan s.rule_ids selected).items
      (λ item p. (p.0, is_wanted-IsNarrowed c (some s) selected desired s item p.0 p.1))
      (narrowed_by-IsNarrowed (IsPlanned c (some s) selected desired) plan s.rule_ids selected h)

-- If the links that are read of a device are written to that device: every item of a plan is for a
-- device that was read and answers, in the scope's devices if it names any, and written to by a link
-- of the scope's rules if it names any. It removes an entry that the device holds, that is no system
-- link, and that is owned or was selected, or it adds or holds back a desired link of the device; and
-- if the scope names rules, its link belongs to one of them, or to none and was selected.
pub async_plan-IsPlanned :
    (sha256 : Text → Text) (c : Coordinator) (scope : Option PlanScope) (selected : List Text)
    (desired : Option (List Link))
    → AreFiled c.observed
    → All
        (λ item. IsPlanned c scope selected desired item × IsNarrowed scope selected item)
        (async_plan sha256 c scope selected desired).items
unfolding async_plan
async_plan-IsPlanned sha256 c scope selected desired filed =
    let ids = identities_in_scope c scope in
    let links = keep (λ (l : Link). contains ids (identity l.source)) (desired_or c desired) in
    narrowed_to_rules-IsNarrowed c
      (build_plan sha256 links (observed_at c (sort ids)) c.capabilities selected) scope selected
      desired
      (All-map (build_plan sha256 links (observed_at c (sort ids)) c.capabilities selected).items
        (λ item. IsJustified-IsPlanned c scope selected desired item filed)
        (build_plan-IsJustified links (observed_at c (sort ids)) c.capabilities selected sha256))
