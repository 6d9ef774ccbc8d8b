-- ===== src/Planner/Completeness.antt =====
-- planner.py `build_plan`: every difference between what is wanted and what is there has its item.
use ha_device_links.Prelude.{
  Text, Dict, ℕ, List, [], ◌∷◌, ◌++◌, map, Option, some, none, Bool, false, not, ◌&&◌, ◌≡◌, refl,
  ◌∙◌, ap, Bool-cases, inl, inr, arith, keep, has, has-keys, contains, values, All, list_eq, nat_eq,
  list_ord, nat_ord, pair_ord, eq_iff, count, count-append, count-sort_by, count_key, index_by,
  index_by-All, index_by-Distinct, All-of_mem, contains-keys-index_by, sort_by, sort_by-All, ◌==◌,
  if◌then◌else◌,
}
use ha_device_links.Models.{
  Link, ObservedLink, fingerprint, identity, Capabilities, PlanItem, remove, op_eq, op_discrete,
}
use ha_device_links.Planner.Build.{build_plan, ordering, item_fingerprint}
use ha_device_links.Planner.Classify.{entry_fingerprint}
use ha_device_links.Planner.Adds.{
  planned_adds, adds_from, plan_add, remove_item, capacity_of, Group, count_used,
}
use ha_device_links.Planner.Classes.{is_removal, is_survivor, classify-eq-filtered}

-- An addition, made or blocked, of the link with a fingerprint; and a removal of it.
abbrev pub is_addition_of : Text → PlanItem → Bool
is_addition_of f i = not (i.op == remove) && item_fingerprint i.link == f

abbrev pub is_removal_of : Text → PlanItem → Bool
is_removal_of f i = i.op == remove && item_fingerprint i.link == f

abbrev IsKeyed : Text × Link → Type 0
IsKeyed e = e.0 ≡ fingerprint e.1

plan_add-addition :
    (f : Text) (used : Dict Group ℕ) (l : Link) (capacity : Option ℕ)
    → is_addition_of f (plan_add capacity used l).1 ≡ (fingerprint l == f)
unfolding plan_add op_discrete
plan_add-addition f used l none = refl
plan_add-addition f used l (some k) = ground arith

plan_add-removal :
    (f : Text) (used : Dict Group ℕ) (l : Link) (capacity : Option ℕ)
    → is_removal_of f (plan_add capacity used l).1 ≡ false
unfolding plan_add op_discrete
plan_add-removal f used l none = refl
plan_add-removal f used l (some k) = ground arith

module _ (present : Dict Text ObservedLink) (capabilities : Capabilities) (f : Text) where
  adds_from-additions :
      (used : Dict Group ℕ) (entries : List (Text × Link))
      → All IsKeyed entries
      → count (is_addition_of f) (adds_from present capabilities used entries)
        ≡ (if has present f then 0 else count (λ e. e.0 == f) entries)
  unfolding adds_from count
  adds_from-additions used [] h = ground arith
  adds_from-additions used ((k, l) ∷ rest) h =
      let capacity = capacity_of capabilities (identity l.source) l.emitter_group in
      let next = (plan_add capacity used l).0 in
      elim (Bool-cases (has present k)) [
        | inl there ↦ rw there (ground (arith, eq_iff k f, adds_from-additions used rest h.1))
        | inr missing ↦ rw missing (
            rw (plan_add-addition f used l capacity, ← h.0)
              (ground (arith, eq_iff k f, adds_from-additions next rest h.1)))
      ]

  adds_from-removals :
      (used : Dict Group ℕ) (entries : List (Text × Link))
      → count (is_removal_of f) (adds_from present capabilities used entries) ≡ 0
  unfolding adds_from count
  adds_from-removals used [] = refl
  adds_from-removals used ((k, l) ∷ rest) =
      let capacity = capacity_of capabilities (identity l.source) l.emitter_group in
      let next = (plan_add capacity used l).0 in
      elim (Bool-cases (has present k)) [
        | inl there ↦ rw there (adds_from-removals used rest)
        | inr missing ↦
            rw missing (
              rw (plan_add-removal f used l capacity) (omega (arith, adds_from-removals next rest)))
      ]

module _ (f : Text) where
  removals-additions :
      (entries : List ObservedLink) → count (is_addition_of f) (map remove_item entries) ≡ 0
  unfolding count op_discrete
  removals-additions [] = refl
  removals-additions (e ∷ es) = omega (arith, removals-additions es)

  removals-removals :
      (p : ObservedLink → Bool) (entries : List ObservedLink)
      → count (is_removal_of f) (map remove_item (keep p entries))
        ≡ count (λ e. entry_fingerprint e == f && p e) entries
  unfolding count op_discrete keep
  removals-removals p [] = refl
  removals-removals p (e ∷ es) = ground (arith, removals-removals p es)

module _ (sha256 : Text → Text) (desired : List Link) (observed : List ObservedLink)
    (capabilities : Capabilities) (remove_unmanaged : List Text) (f : Text) where
  abbrev wanted : Dict Text Link
  wanted = index_by fingerprint desired

  abbrev present : Dict Text ObservedLink
  present = index_by entry_fingerprint observed

  wanted-count :
      count (λ e. e.0 == f) wanted ≡ (if contains (map fingerprint desired) f then 1 else 0)
  wanted-count =
      count_key wanted f (index_by-Distinct fingerprint desired)
      ∙ ap (λ (b : Bool). if b then 1 else 0) (contains-keys-index_by fingerprint desired f)

  has-present : has present f ≡ contains (map entry_fingerprint observed) f
  has-present = has-keys present f ∙ contains-keys-index_by entry_fingerprint observed f

  -- A plan has exactly one addition, made or blocked, for each fingerprint that is desired and not
  -- observed, and none for any other.
  pub count-additions :
      count
        (is_addition_of f)
        (build_plan sha256 desired observed capabilities remove_unmanaged).items
      ≡ (if contains (map entry_fingerprint observed) f
          then 0
          else if contains (map fingerprint desired) f
          then 1
          else 0)
  unfolding build_plan planned_adds
  count-additions =
      let gone = keep (is_removal wanted remove_unmanaged) (values present) in
      let stay = keep (is_survivor wanted remove_unmanaged) (values present) in
      let sorted : List (Text × Link) = sort_by (λ (e : Text × Link). e.0) wanted in
      let adds = adds_from present capabilities (count_used [] stay) sorted in
      rw (classify-eq-filtered wanted remove_unmanaged present) (
        count-sort_by ordering (is_addition_of f) (map remove_item gone ++ adds)
        ∙ count-append (is_addition_of f) (map remove_item gone) adds
        ∙ ground (
          arith,
          removals-additions f gone,
          adds_from-additions present capabilities f (count_used [] stay) sorted (
              sort_by-All (λ e. e.0) IsKeyed wanted
                (index_by-All fingerprint IsKeyed desired (All-of_mem desired (λ l m. refl)))),
          count-sort_by (λ (e : Text × Link). e.0) (λ (e : Text × Link). e.0 == f) wanted,
          wanted-count,
          has-present,
        ))

  -- A plan removes an observed entry exactly when it may be removed.
  pub count-removable :
      count
        (is_removal_of f)
        (build_plan sha256 desired observed capabilities remove_unmanaged).items
      ≡ count
          (λ e. entry_fingerprint e == f && is_removal wanted remove_unmanaged e)
          (values present)
  unfolding build_plan planned_adds
  count-removable =
      let gone = keep (is_removal wanted remove_unmanaged) (values present) in
      let stay = keep (is_survivor wanted remove_unmanaged) (values present) in
      let adds = adds_from present capabilities (count_used [] stay) (sort_by (λ e. e.0) wanted) in
      rw (classify-eq-filtered wanted remove_unmanaged present) (
        count-sort_by ordering (is_removal_of f) (map remove_item gone ++ adds)
        ∙ count-append (is_removal_of f) (map remove_item gone) adds
        ∙ omega (
          arith,
          removals-removals f (is_removal wanted remove_unmanaged) (values present),
          adds_from-removals present capabilities f (count_used [] stay)
              (sort_by (λ (e : Text × Link). e.0) wanted),
        ))
