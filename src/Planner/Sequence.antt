-- ===== src/Planner/Sequence.antt =====
-- planner.py `build_plan`: the order in which a plan's items stand.
use ha_device_links.Prelude.{
  ◌&&◌, Eq, Ord, Text, List, [], ◌∷◌, Bool, true, false, not, ◌||◌, ◌≡◌, refl, arith, All, All-map,
  leb, ◌==◌, ◌<=◌, SortedBy, sort_by-SortedBy, list_eq, nat_eq, pair_eq, list_ord, nat_ord,
  pair_ord, pair_leq, Bool-cases, inl, inr,
}
use ha_device_links.Models.{PlanOp, remove, blocked, Link, ObservedLink, Capabilities, PlanItem}
use ha_device_links.Planner.Build.{op_order, ordering, build_plan}

abbrev is_remove : PlanOp → Bool
is_remove remove = true
is_remove _ = false

abbrev is_blocked : PlanOp → Bool
is_blocked blocked = true
is_blocked _ = false

-- A removal stands only behind removals, and behind what is blocked only what is blocked.
abbrev in_stages : PlanOp → PlanOp → Bool
in_stages a b = (not (is_remove b) || is_remove a) && (not (is_blocked a) || is_blocked b)

op_order-in_stages : (a b : PlanOp) → leb (op_order a) (op_order b) ≡ true → in_stages a b ≡ true
unfolding op_order
op_order-in_stages a b h = ground arith

-- The devices stand in the order of their identities, and one device's items in stages.
abbrev IsBefore : PlanItem → PlanItem → Type 0
IsBefore i j =
    ((i.device_identity <= j.device_identity) ≡ true)
    × ((not (i.device_identity == j.device_identity) || in_stages i.op j.op) ≡ true)

abbrev pub IsSequence : List PlanItem → Type 0
IsSequence [] = Unit
IsSequence (i ∷ is) = All (IsBefore i) is × IsSequence is

-- The parts of the order on pairs.
leq_refl : {A : Type 0} ⦃o : Ord A⦄ (a : A) → o.leq a a ≡ true
leq_refl ⦃o⦄ a = elim (Bool-cases (o.leq a a)) [ inl t ↦ t | inr f ↦ o.leq_total a a f ]

module _ {A B : Type 0} ⦃e : Eq A⦄ ⦃o : Ord A⦄ ⦃p : Ord B⦄ where
  pair_leq-fst : (a c : A) (b d : B) → pair_leq (a, b) (c, d) ≡ true → o.leq a c ≡ true
  unfolding pair_leq
  pair_leq-fst a c b d h = elim (Bool-cases (a == c)) [
    | inl same ↦ let q : a ≡ c = (e.beq_iff a c).0 same in rw (← q) (leq_refl a)
    | inr other ↦ rw other at h
  ]

  pair_leq-snd :
      (a c : A) (b d : B) → pair_leq (a, b) (c, d) ≡ true → (not (a == c) || p.leq b d) ≡ true
  unfolding pair_leq
  pair_leq-snd a c b d h = elim (Bool-cases (a == c)) [
    | inl same ↦ rw same (rw same at h)
    | inr other ↦ rw other refl
  ]

ordering-IsBefore : (i j : PlanItem) → (ordering i <= ordering j) ≡ true → IsBefore i j
unfolding ordering
ordering-IsBefore i j h =
    let rest = pair_leq-snd i.device_identity j.device_identity _ _ h in
    (
      pair_leq-fst i.device_identity j.device_identity _ _ h,
      elim (Bool-cases (i.device_identity == j.device_identity)) [
        | inr other ↦ rw other refl
        | inl same ↦ rw same (
            op_order-in_stages i.op j.op
              (pair_leq-fst (op_order i.op) (op_order j.op) _ _ (rw same at rest)))
      ],
    )

SortedBy-IsSequence : (is : List PlanItem) → SortedBy ordering is → IsSequence is
SortedBy-IsSequence [] h = tt
SortedBy-IsSequence (i ∷ is) h =
    (All-map is (λ j k. ordering-IsBefore i j k) h.0, SortedBy-IsSequence is h.1)

-- The items of a plan stand device by device, in the order of the identities. On one device no removal
-- stands behind an addition or a blocked link, and no addition behind a blocked link.
pub build_plan-IsSequence :
    (sha256 : Text → Text) (desired : List Link) (observed : List ObservedLink)
    (capabilities : Capabilities) (remove_unmanaged : List Text)
    → IsSequence (build_plan sha256 desired observed capabilities remove_unmanaged).items
unfolding build_plan
build_plan-IsSequence sha256 desired observed capabilities remove_unmanaged =
    SortedBy-IsSequence _ (sort_by-SortedBy ordering _)
