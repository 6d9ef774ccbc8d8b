-- ===== src/Prelude/Members.antt =====
-- Membership in the filtered, the sorted and the set of a list.
use mathlib.Core.Path.{◌≡◌, refl}
use mathlib.Core.Bool.{Bool, not, ◌&&◌}
use mathlib.Core.List.{List, [], ◌∷◌, map}
use native.Mathlib.Omega.{arith}
use ha_device_links.Prelude.Tests.{if◌then◌else◌, leb}
use ha_device_links.Prelude.Equality.{Eq, ◌==◌, contains}
use ha_device_links.Prelude.Lists.{keep, count, dedup, minus}
use ha_device_links.Prelude.Order.{Ord, sort_by, count-sort_by}

module _ {ℓ} {A : Type ℓ} ⦃e : Eq A⦄ where
  pub contains-keep :
      (p : A → Bool) (xs : List A) (a : A) → contains (keep p xs) a ≡ (contains xs a && p a)
  unfolding keep contains
  contains-keep p [] a = refl
  contains-keep p (x ∷ xs) a = ground (arith, e.beq_iff x a, contains-keep p xs a)

  pub contains-minus :
      (xs ys : List A) (a : A) → contains (minus xs ys) a ≡ (contains xs a && not (contains ys a))
  unfolding minus
  contains-minus xs ys a = contains-keep (λ x. not (contains ys x)) xs a

  pub contains-dedup : (xs : List A) (a : A) → contains (dedup xs) a ≡ contains xs a
  unfolding dedup contains
  contains-dedup [] a = refl
  contains-dedup (x ∷ xs) a =
      ground (arith, contains-dedup xs a, contains-keep (λ y. not (x == y)) (dedup xs) a)

  contains-count : (xs : List A) (a : A) → contains xs a ≡ leb 1 (count (λ x. x == a) xs)
  unfolding contains count
  contains-count [] a = ground arith
  contains-count (x ∷ xs) a = ground (arith, contains-count xs a)

  pub contains-sort_by {κ} :
      {K : Type κ} ⦃o : Ord K⦄ (key : A → K) (xs : List A) (a : A)
      → contains (sort_by key xs) a ≡ contains xs a
  contains-sort_by key xs a =
      rw
        (contains-count (sort_by key xs) a, contains-count xs a, count-sort_by key (λ x. x == a) xs)
        refl

module _ {ℓ κ} {A : Type ℓ} {B : Type κ} ⦃e : Eq B⦄ where
  pub count-map :
      (f : A → B) (xs : List A) (b : B) → count (λ y. y == b) (map f xs) ≡ count (λ x. f x == b) xs
  unfolding count
  count-map f [] b = refl
  count-map f (x ∷ xs) b = omega (arith, count-map f xs b)

  pub contains-map-sort_by {μ} :
      {K : Type μ} ⦃o : Ord K⦄ (key : A → K) (f : A → B) (xs : List A) (b : B)
      → contains (map f (sort_by key xs)) b ≡ contains (map f xs) b
  contains-map-sort_by key f xs b =
      rw
        (
          contains-count (map f (sort_by key xs)) b,
          contains-count (map f xs) b,
          count-map f (sort_by key xs) b,
          count-map f xs b,
          count-sort_by key (λ x. f x == b) xs,
        )
        refl

module _ {ℓ} {A : Type ℓ} ⦃e : Eq A⦄ where
  count_others :
      (x a : A) (ys : List A)
      → count (λ y. y == a) (keep (λ y. not (x == y)) ys)
        ≡ (if x == a then 0 else count (λ y. y == a) ys)
  unfolding keep count
  count_others x a [] = ground arith
  count_others x a (y ∷ ys) =
      ground (arith, e.beq_iff x a, e.beq_iff x y, e.beq_iff y a, count_others x a ys)

  -- A set holds an element once or not at all.
  pub count-dedup :
      (xs : List A) (a : A) → count (λ x. x == a) (dedup xs) ≡ (if contains xs a then 1 else 0)
  unfolding dedup count contains
  count-dedup [] a = refl
  count-dedup (x ∷ xs) a = ground (arith, count-dedup xs a, count_others x a (dedup xs))
