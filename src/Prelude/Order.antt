-- ===== src/Prelude/Order.antt =====
-- Python's `<=` on values, and `sorted`: a stable sort by a key.
use Prim.Native.Nat.{ℕ}
use mathlib.Core.Path.{◌≡◌, refl}
use mathlib.Core.Logic.{inl, inr}
use mathlib.Core.Bool.{Bool, true, false}
use mathlib.Core.List.{List, [], ◌∷◌, Perm}
use mathlib.Core.List.Perm
use native.Mathlib.Omega.{arith}
use ha_device_links.Prelude.Tests.{leb, Bool-cases, if◌then◌else◌}
use ha_device_links.Prelude.Equality.{Eq, ◌==◌, nat_eq, list_eq, pair_eq}
use ha_device_links.Prelude.Lists.{All, All-map, count}

pub record Ord {ℓ} (A : Type ℓ) : Type ℓ where
  pub leq : A → A → Bool
  pub leq_total : (a b : A) → leq a b ≡ false → leq b a ≡ true
  pub leq_trans : (a b c : A) → leq a b ≡ true → leq b c ≡ true → leq a c ≡ true
  pub leq_antisymm : (a b : A) → leq a b ≡ true → leq b a ≡ true → a ≡ b

infix 50 ◌<=◌
abbrev pub ◌<=◌ {ℓ} : {A : Type ℓ} ⦃o : Ord A⦄ → A → A → Bool
◌<=◌ ⦃o⦄ = o.leq

pub nat_total : (a b : ℕ) → leb a b ≡ false → leb b a ≡ true
nat_total a b h = ground arith

pub nat_trans : (a b c : ℕ) → leb a b ≡ true → leb b c ≡ true → leb a c ≡ true
nat_trans a b c h k = ground arith

pub nat_antisymm : (a b : ℕ) → leb a b ≡ true → leb b a ≡ true → a ≡ b
nat_antisymm a b h k = ground arith

instance abbrev pub nat_ord : Ord ℕ
nat_ord = record {
  leq = leb;
  leq_total = nat_total;
  leq_trans = nat_trans;
  leq_antisymm = nat_antisymm;
}

-- Tuples compare by the first part that differs.
module _ {ℓ κ} {A : Type ℓ} {B : Type κ} ⦃e : Eq A⦄ ⦃o : Ord A⦄ ⦃p : Ord B⦄ where
  unfoldable pub pair_leq : A × B → A × B → Bool
  pair_leq (a, b) (c, d) = if a == c then p.leq b d else o.leq a c

  pub pair_total : (s t : A × B) → pair_leq s t ≡ false → pair_leq t s ≡ true
  unfolding pair_leq
  pair_total (a, b) (c, d) h =
      ground (arith, e.beq_iff a c, e.beq_iff c a, o.leq_total a c, p.leq_total b d)

  pub pair_trans : (s t u : A × B) → pair_leq s t ≡ true → pair_leq t u ≡ true → pair_leq s u ≡ true
  unfolding pair_leq
  pair_trans (a, b) (c, d) (f, g) h k = ground (
    arith,
    e.beq_iff a c,
    e.beq_iff c f,
    e.beq_iff a f,
    o.leq_trans a c f,
    o.leq_antisymm a c,
    p.leq_trans b d g,
  )

  pub pair_antisymm : (s t : A × B) → pair_leq s t ≡ true → pair_leq t s ≡ true → s ≡ t
  unfolding pair_leq
  pair_antisymm (a, b) (c, d) h k =
      ground (arith, e.beq_iff a c, e.beq_iff c a, o.leq_antisymm a c, p.leq_antisymm b d)

  instance abbrev pub pair_ord : Ord (A × B)
  pair_ord = record {
    leq = pair_leq;
    leq_total = pair_total;
    leq_trans = pair_trans;
    leq_antisymm = pair_antisymm;
  }

-- Strings and other sequences compare element by element, a prefix first.
module _ {ℓ} {A : Type ℓ} ⦃e : Eq A⦄ ⦃o : Ord A⦄ where
  unfoldable pub list_leq : List A → List A → Bool
  list_leq [] _ = true
  list_leq (x ∷ xs) [] = false
  list_leq (x ∷ xs) (y ∷ ys) = if x == y then list_leq xs ys else o.leq x y

  pub list_total : (xs ys : List A) → list_leq xs ys ≡ false → list_leq ys xs ≡ true
  unfolding list_leq
  list_total [] ys h = cc
  list_total (x ∷ xs) [] h = refl
  list_total (x ∷ xs) (y ∷ ys) h =
      ground (arith, e.beq_iff x y, e.beq_iff y x, o.leq_total x y, list_total xs ys)

  pub list_trans :
      (xs ys zs : List A) → list_leq xs ys ≡ true → list_leq ys zs ≡ true → list_leq xs zs ≡ true
  unfolding list_leq
  list_trans [] ys zs h k = refl
  list_trans (x ∷ xs) [] zs h k = cc
  list_trans (x ∷ xs) (y ∷ ys) [] h k = cc
  list_trans (x ∷ xs) (y ∷ ys) (z ∷ zs) h k = ground (
    arith,
    e.beq_iff x y,
    e.beq_iff y z,
    e.beq_iff x z,
    o.leq_trans x y z,
    o.leq_antisymm x y,
    list_trans xs ys zs,
  )

  pub list_antisymm : (xs ys : List A) → list_leq xs ys ≡ true → list_leq ys xs ≡ true → xs ≡ ys
  unfolding list_leq
  list_antisymm [] [] h k = refl
  list_antisymm [] (y ∷ ys) h k = cc
  list_antisymm (x ∷ xs) [] h k = cc
  list_antisymm (x ∷ xs) (y ∷ ys) h k =
      ground (arith, e.beq_iff x y, e.beq_iff y x, o.leq_antisymm x y, list_antisymm xs ys)

  instance abbrev pub list_ord : Ord (List A)
  list_ord = record {
    leq = list_leq;
    leq_total = list_total;
    leq_trans = list_trans;
    leq_antisymm = list_antisymm;
  }

module _ {ℓ κ} {A : Type ℓ} {K : Type κ} ⦃o : Ord K⦄ where
  -- Before the first element whose key is not smaller, so that equal keys keep their order.
  unfoldable pub insert_by : (A → K) → A → List A → List A
  insert_by key x [] = x ∷ []
  insert_by key x (y ∷ ys) = if key x <= key y then x ∷ y ∷ ys else y ∷ insert_by key x ys

  -- `sorted(xs, key=key)`
  unfoldable pub sort_by : (A → K) → List A → List A
  unfolding insert_by
  sort_by key [] = []
  sort_by key (x ∷ xs) = insert_by key x (sort_by key xs)

  insert_by-perm : (key : A → K) (x : A) (ys : List A) → Perm (insert_by key x ys) (x ∷ ys)
  unfolding insert_by
  insert_by-perm key x [] = Perm.rfl
  insert_by-perm key x (y ∷ ys) = elim (Bool-cases (key x <= key y)) [
    | inl t ↦ rw t Perm.rfl
    | inr f ↦ rw f (Perm.trans (Perm.cons y (insert_by-perm key x ys)) (Perm.swap x y ys))
  ]

  pub sort_by-perm : (key : A → K) (xs : List A) → Perm (sort_by key xs) xs
  unfolding sort_by
  sort_by-perm key [] = Perm.rfl
  sort_by-perm key (x ∷ xs) =
      Perm.trans (insert_by-perm key x (sort_by key xs)) (Perm.cons x (sort_by-perm key xs))

  -- Every element's key is at most the keys behind it.
  abbrev pub SortedBy : (A → K) → List A → Type 0
  SortedBy key [] = Unit
  SortedBy key (x ∷ xs) = All (λ y. (key x <= key y) ≡ true) xs × SortedBy key xs

  insert_by-All :
      (key : A → K) (P : A → Type 0) (x : A) (ys : List A)
      → P x
      → All P ys
      → All P (insert_by key x ys)
  unfolding insert_by
  insert_by-All key P x [] p h = (p, tt)
  insert_by-All key P x (y ∷ ys) p h = elim (Bool-cases (key x <= key y)) [
    | inl t ↦ rw t (p, h)
    | inr f ↦ rw f (h.0, insert_by-All key P x ys p h.1)
  ]

  insert_by-SortedBy :
      (key : A → K) (x : A) (ys : List A) → SortedBy key ys → SortedBy key (insert_by key x ys)
  unfolding insert_by
  insert_by-SortedBy key x [] h = (tt, tt)
  insert_by-SortedBy key x (y ∷ ys) h = elim (Bool-cases (key x <= key y)) [
    | inl t ↦ rw t ((t, All-map ys (λ z. o.leq_trans (key x) (key y) (key z) t) h.0), h)
    | inr f ↦ rw f (
      insert_by-All key (λ z. (key y <= key z) ≡ true) x ys (o.leq_total (key x) (key y) f) h.0,
      insert_by-SortedBy key x ys h.1,
    )
  ]

  pub sort_by-SortedBy : (key : A → K) (xs : List A) → SortedBy key (sort_by key xs)
  unfolding sort_by
  sort_by-SortedBy key [] = tt
  sort_by-SortedBy key (x ∷ xs) =
      insert_by-SortedBy key x (sort_by key xs) (sort_by-SortedBy key xs)

  pub sort_by-All : (key : A → K) (P : A → Type 0) (xs : List A) → All P xs → All P (sort_by key xs)
  unfolding sort_by
  sort_by-All key P [] h = tt
  sort_by-All key P (x ∷ xs) h =
      insert_by-All key P x (sort_by key xs) h.0 (sort_by-All key P xs h.1)

  count-insert_by :
      (key : A → K) (p : A → Bool) (x : A) (ys : List A)
      → count p (insert_by key x ys) ≡ count p (x ∷ ys)
  unfolding insert_by count
  count-insert_by key p x [] = refl
  count-insert_by key p x (y ∷ ys) = elim (Bool-cases (key x <= key y)) [
    | inl t ↦ rw t
    | inr f ↦ rw f (omega (arith, count-insert_by key p x ys))
  ]

  pub count-sort_by :
      (key : A → K) (p : A → Bool) (xs : List A) → count p (sort_by key xs) ≡ count p xs
  unfolding sort_by count
  count-sort_by key p [] = refl
  count-sort_by key p (x ∷ xs) =
      omega (arith, count-insert_by key p x (sort_by key xs), count-sort_by key p xs)

module _ {ℓ} {A : Type ℓ} ⦃o : Ord A⦄ where
  -- `sorted(xs)`
  unfoldable pub sort : List A → List A
  unfolding sort_by
  sort xs = sort_by (λ x. x) xs
