-- ===== src/Planner/Capacity.antt =====
-- planner.py `_planned_adds`: a plan never overfills a group.
use Prim.Native.Nat.{max}
use ha_device_links.Prelude.{
  Text, Dict, ℕ, ◌+◌, ◌≤◌, List, [], ◌∷◌, ◌++◌, map, Option, some, none, Bool, false, ◌&&◌, ◌≡◌,
  refl, Bool-cases, inl, inr, arith, keep, has, get, get-put, put, values, list_eq, nat_eq, pair_eq,
  eq_iff, pair_ord, list_ord, nat_ord, count, count-append, count-sort_by, index_by, sort_by, ◌==◌,
  if◌then◌else◌,
}
use ha_device_links.Models.{
  Link, ObservedLink, fingerprint, identity, Capabilities, PlanItem, add, op_eq, item_link,
  op_discrete,
}
use ha_device_links.Planner.Build.{build_plan, ordering}
use ha_device_links.Planner.Classify.{entry_fingerprint}
use ha_device_links.Planner.Adds.{
  planned_adds, adds_from, plan_add, remove_item, capacity_of, Group, count_used, used_of,
  link_group,
}
use ha_device_links.Planner.Classes.{is_removal, is_survivor, classify-eq-filtered}

-- The group that an item writes to.
abbrev pub item_in : Group → PlanItem → Bool
item_in g i = elim i.link [ none ↦ false | some l ↦ link_group (item_link l) == g ]

abbrev pub is_add_in : Group → PlanItem → Bool
is_add_in g i = i.op == add && item_in g i

abbrev pub entry_in : Group → ObservedLink → Bool
entry_in g e = link_group e.link == g

used_of-put :
    (used : Dict Group ℕ) (h g : Group) (n : ℕ)
    → used_of (put used h n) g ≡ (if h == g then n else used_of used g)
used_of-put used h g n = ground (arith, get-put used h g n)

used_of-count_used :
    (used : Dict Group ℕ) (entries : List ObservedLink) (g : Group)
    → used_of (count_used used entries) g ≡ used_of used g + count (entry_in g) entries
unfolding count_used count
used_of-count_used used [] g = omega arith
used_of-count_used used (e ∷ es) g =
    let h = link_group e.link in
    let next = put used h (used_of used h + 1) in
    ground
      (arith, used_of-count_used next es g, used_of-put used h g (used_of used h + 1), eq_iff h g)

-- One missing link takes a slot of its group at most, and none beyond the capacity.
plan_add-used :
    (g : Group) (c : ℕ) (used : Dict Group ℕ) (l : Link) (capacity : Option ℕ)
    → used_of (plan_add capacity used l).0 g
      ≡ used_of used g + (if is_add_in g (plan_add capacity used l).1 then 1 else 0)
unfolding plan_add op_discrete
plan_add-used g c used l none = omega arith
plan_add-used g c used l (some k) = ground (
  arith,
  used_of-put used (link_group l) g (used_of used (link_group l) + 1),
  eq_iff (link_group l) g,
)

plan_add-le :
    (g : Group) (c : ℕ) (used : Dict Group ℕ) (l : Link) (capacity : Option ℕ)
    → (link_group l ≡ g → capacity ≡ some c)
    → used_of (plan_add capacity used l).0 g ≤ max (used_of used g) c
unfolding plan_add
plan_add-le g c used l none h = omega arith
plan_add-le g c used l (some k) h = ground (
  arith,
  used_of-put used (link_group l) g (used_of used (link_group l) + 1),
  eq_iff (link_group l) g,
)

module _ (present : Dict Text ObservedLink) (capabilities : Capabilities) (g : Group) (c : ℕ)
    (known : capacity_of capabilities g.0 g.1 ≡ some c) where
  adds_from-le :
      (used : Dict Group ℕ) (entries : List (Text × Link))
      → used_of used g + count (is_add_in g) (adds_from present capabilities used entries)
        ≤ max (used_of used g) c
  unfolding adds_from count
  adds_from-le used [] = omega arith
  adds_from-le used ((f, l) ∷ rest) =
      let capacity = capacity_of capabilities (identity l.source) l.emitter_group in
      let next = (plan_add capacity used l).0 in
      elim (Bool-cases (has present f)) [
        | inl there ↦ rw there (adds_from-le used rest)
        | inr missing ↦ rw missing (
            omega (
              arith,
              adds_from-le next rest,
              plan_add-used g c used l capacity,
              plan_add-le g c used l capacity (λ same. rw (← same) at known),
            ))
      ]

  planned_adds-le :
      (wanted : Dict Text Link) (survivors : List ObservedLink)
      → count (entry_in g) survivors
          + count (is_add_in g) (planned_adds wanted present survivors capabilities)
        ≤ max (count (entry_in g) survivors) c
  unfolding planned_adds get
  planned_adds-le wanted survivors =
      let used = count_used [] survivors in
      omega
        (arith, adds_from-le used (sort_by (λ e. e.0) wanted), used_of-count_used [] survivors g)

-- An item for a removal is no addition.
count-removals :
    (g : Group) (entries : List ObservedLink) → count (is_add_in g) (map remove_item entries) ≡ 0
unfolding count op_discrete
count-removals g [] = refl
count-removals g (e ∷ es) = omega (arith, count-removals g es)

-- The entries of a group that stay and the additions that a plan makes to it are together no more
-- than the capacity of the group, or than what stays if that is already more.
pub build_plan-le_capacity :
    (sha256 : Text → Text) (desired : List Link) (observed : List ObservedLink)
    (capabilities : Capabilities) (remove_unmanaged : List Text) (g : Group) (c : ℕ)
    → capacity_of capabilities g.0 g.1 ≡ some c
    → let wanted = index_by fingerprint desired in
      let entries = values (index_by entry_fingerprint observed) in
      let stay = keep (is_survivor wanted remove_unmanaged) entries in
      count (entry_in g) stay
        + count
            (is_add_in g)
            (build_plan sha256 desired observed capabilities remove_unmanaged).items
      ≤ max (count (entry_in g) stay) c
unfolding build_plan
build_plan-le_capacity sha256 desired observed capabilities remove_unmanaged g c known =
    let wanted = index_by fingerprint desired in
    let present = index_by entry_fingerprint observed in
    let stay = keep (is_survivor wanted remove_unmanaged) (values present) in
    let gone = map remove_item (keep (is_removal wanted remove_unmanaged) (values present)) in
    let adds = planned_adds wanted present stay capabilities in
    rw (classify-eq-filtered wanted remove_unmanaged present) (
      omega (
        arith,
        planned_adds-le present capabilities g c known wanted stay,
        count-sort_by ordering (is_add_in g) (gone ++ adds),
        count-append (is_add_in g) gone adds,
        count-removals g (keep (is_removal wanted remove_unmanaged) (values present)),
      ))
