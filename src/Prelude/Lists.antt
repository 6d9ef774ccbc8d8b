-- ===== src/Prelude/Lists.antt =====
-- Lists: lengths and counts by native numbers, filters by Boolean tests, predicates on the elements.
use Prim.Native.Nat.{ℕ, suc, ◌+◌}
use mathlib.Core.Path.{◌≡◌, refl, ap, sym}
use mathlib.Core.Logic.{◌⊎◌, inl, inr}
use mathlib.Core.Bool.{Bool, true, false, ◌&&◌, ◌||◌, not}
use mathlib.Core.List.Memᴰ.{Memᴰ, head, tail}
use mathlib.Core.List.{List, [], ◌∷◌, ◌++◌, map}
use native.Mathlib.Omega.{arith}
use ha_device_links.Prelude.Tests.{Bool-cases, if◌then◌else◌}
use ha_device_links.Prelude.Equality.{Eq, ◌==◌, eq_refl, contains}

module _ {ℓ} {A : Type ℓ} where
  abbrev pub length : List A → ℕ
  length [] = 0
  length (x ∷ xs) = suc (length xs)

  -- `any(p(x) for x in xs)`
  unfoldable pub any : (A → Bool) → List A → Bool
  any p [] = false
  any p (x ∷ xs) = p x || any p xs

  -- `all(p(x) for x in xs)`
  unfoldable pub all : (A → Bool) → List A → Bool
  all p [] = true
  all p (x ∷ xs) = p x && all p xs

  -- `[x for x in xs if p(x)]`
  unfoldable pub keep : (A → Bool) → List A → List A
  keep p [] = []
  keep p (x ∷ xs) = let rest = keep p xs in if p x then x ∷ rest else rest

  unfoldable pub count : (A → Bool) → List A → ℕ
  count p [] = 0
  count p (x ∷ xs) = (if p x then 1 else 0) + count p xs

  abbrev pub All {κ} : (A → Type κ) → List A → Type κ
  All P [] = Unit
  All P (x ∷ xs) = P x × All P xs

module _ {ℓ} {A : Type ℓ} where
  pub All-of_mem {κ} : {P : A → Type κ} (xs : List A) → ((a : A) → Memᴰ a xs → P a) → All P xs
  All-of_mem [] h = tt
  All-of_mem (x ∷ xs) h = (h x (head refl), All-of_mem xs (λ a m. h a (tail m)))

  pub mem-All {κ} : (P : A → Type κ) {a : A} (xs : List A) → All P xs → Memᴰ a xs → P a
  mem-All P [] h m = elim m [ ]
  mem-All P (x ∷ xs) h (head e) = rw e h.0
  mem-All P (x ∷ xs) h (tail m) = mem-All P xs h.1 m

  pub All-map {κ μ} :
      {P : A → Type κ} {Q : A → Type μ} (xs : List A) → ((a : A) → P a → Q a) → All P xs → All Q xs
  All-map [] f h = tt
  All-map (x ∷ xs) f h = (f x h.0, All-map xs f h.1)

  pub All-append {κ} : (P : A → Type κ) (xs ys : List A) → All P xs → All P ys → All P (xs ++ ys)
  All-append P [] ys h k = k
  All-append P (x ∷ xs) ys h k = (h.0, All-append P xs ys h.1 k)

  pub append-All {κ} : (P : A → Type κ) (xs ys : List A) → All P (xs ++ ys) → All P xs × All P ys
  append-All P [] ys h = (tt, h)
  append-All P (x ∷ xs) ys h = let (l, r) = append-All P xs ys h.1 in ((h.0, l), r)

  pub keep-All {κ} : (P : A → Type κ) (p : A → Bool) (xs : List A) → All P xs → All P (keep p xs)
  unfolding keep
  keep-All P p [] h = tt
  keep-All P p (x ∷ xs) h = elim (Bool-cases (p x)) [
    | inl t ↦ rw t (h.0, keep-All P p xs h.1)
    | inr f ↦ rw f (keep-All P p xs h.1)
  ]

  pub mem_append_left : {a : A} (xs ys : List A) → Memᴰ a xs → Memᴰ a (xs ++ ys)
  mem_append_left [] ys m = elim m [ ]
  mem_append_left (x ∷ xs) ys (head e) = head e
  mem_append_left (x ∷ xs) ys (tail m) = tail (mem_append_left xs ys m)

  pub mem_append_right : {a : A} (xs ys : List A) → Memᴰ a ys → Memᴰ a (xs ++ ys)
  mem_append_right [] ys m = m
  mem_append_right (x ∷ xs) ys m = tail (mem_append_right xs ys m)

  pub mem-append : {a : A} (xs ys : List A) → Memᴰ a (xs ++ ys) → Memᴰ a xs ⊎ Memᴰ a ys
  mem-append [] ys m = inr m
  mem-append (x ∷ xs) ys (head e) = inl (head e)
  mem-append (x ∷ xs) ys (tail m) = elim (mem-append xs ys m) [
    | inl l ↦ inl (tail l)
    | inr r ↦ inr r
  ]

  mem-keep_cons :
      (p : A → Bool) {a x : A} {xs : List A}
      → p x ≡ true
      → Memᴰ a (x ∷ keep p xs)
      → (Memᴰ a (keep p xs) → Memᴰ a xs × (p a ≡ true))
      → Memᴰ a (x ∷ xs) × (p a ≡ true)
  mem-keep_cons p t (head e) ih = (head e, rw e t)
  mem-keep_cons p t (tail m) ih = let (n, q) = ih m in (tail n, q)

  pub mem-keep :
      (p : A → Bool) {a : A} (xs : List A) → Memᴰ a (keep p xs) → Memᴰ a xs × (p a ≡ true)
  unfolding keep
  mem-keep p [] m = elim m [ ]
  mem-keep p (x ∷ xs) m = elim (Bool-cases (p x)) [
    | inl t ↦ mem-keep_cons p t (rw t at m) (mem-keep p xs)
    | inr f ↦ let (n, q) = mem-keep p xs (rw f at m) in (tail n, q)
  ]

  pub mem_keep : (p : A → Bool) {a : A} (xs : List A) → Memᴰ a xs → p a ≡ true → Memᴰ a (keep p xs)
  unfolding keep
  mem_keep p [] m t = elim m [ ]
  mem_keep p (x ∷ xs) (head e) t = let q : p x ≡ true = rw (← e) t in rw q (head e)
  mem_keep p (x ∷ xs) (tail m) t = elim (Bool-cases (p x)) [
    | inl h ↦ rw h (tail (mem_keep p xs m t))
    | inr h ↦ rw h (mem_keep p xs m t)
  ]

  pub length-append : (xs ys : List A) → length (xs ++ ys) ≡ length xs + length ys
  length-append [] ys = omega arith
  length-append (x ∷ xs) ys = omega (arith, length-append xs ys)

  pub count-append : (p : A → Bool) (xs ys : List A) → count p (xs ++ ys) ≡ count p xs + count p ys
  unfolding count
  count-append p [] ys = omega arith
  count-append p (x ∷ xs) ys = omega (arith, count-append p xs ys)

module _ {ℓ κ} {A : Type ℓ} {B : Type κ} where
  pub mem-map :
      (f : A → B) {b : B} (xs : List A) → Memᴰ b (map f xs) → (a : A) × Memᴰ a xs × (f a ≡ b)
  mem-map f [] m = elim m [ ]
  mem-map f (x ∷ xs) (head e) = (x, head refl, sym e)
  mem-map f (x ∷ xs) (tail m) = let (a, n, e) = mem-map f xs m in (a, tail n, e)

  pub map-mem : (f : A → B) {a : A} (xs : List A) → Memᴰ a xs → Memᴰ (f a) (map f xs)
  map-mem f [] m = elim m [ ]
  map-mem f (x ∷ xs) (head e) = head (ap f e)
  map-mem f (x ∷ xs) (tail m) = tail (map-mem f xs m)

module _ {ℓ} {A : Type ℓ} ⦃e : Eq A⦄ where
  pub contains→mem : (xs : List A) (a : A) → contains xs a ≡ true → Memᴰ a xs
  unfolding contains
  contains→mem [] a h = cc
  contains→mem (x ∷ xs) a h = elim (Bool-cases (x == a)) [
    | inl t ↦ head (sym ((e.beq_iff x a).0 t))
    | inr f ↦ tail (contains→mem xs a (rw f at h))
  ]

  pub mem→contains : (xs : List A) (a : A) → Memᴰ a xs → contains xs a ≡ true
  unfolding contains
  mem→contains [] a m = elim m [ ]
  mem→contains (x ∷ xs) a (head p) = rw (p, eq_refl x)
  mem→contains (x ∷ xs) a (tail m) = ground (arith, mem→contains xs a m)

  -- A Python set as a list without repetitions, in the order of first occurrence.
  unfoldable pub dedup : List A → List A
  dedup [] = []
  dedup (x ∷ xs) = x ∷ keep (λ y. not (x == y)) (dedup xs)

  pub dedup-All {κ} : (P : A → Type κ) (xs : List A) → All P xs → All P (dedup xs)
  unfolding dedup
  dedup-All P [] h = tt
  dedup-All P (x ∷ xs) h = (h.0, keep-All P (λ y. not (x == y)) (dedup xs) (dedup-All P xs h.1))

  -- `a - b` and `a & b` on sets
  unfoldable pub minus : List A → List A → List A
  minus xs ys = keep (λ x. not (contains ys x)) xs

  unfoldable pub meet : List A → List A → List A
  meet xs ys = keep (λ x. contains ys x) xs

  -- `a <= b` on sets
  unfoldable pub subset : List A → List A → Bool
  subset xs ys = all (λ x. contains ys x) xs

  -- `len(set(xs)) == len(xs)`
  abbrev pub Distinct : List A → Type 0
  Distinct [] = Unit
  Distinct (x ∷ xs) = (contains xs x ≡ false) × Distinct xs
