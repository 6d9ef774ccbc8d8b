-- ===== src/Prelude/Dicts.antt =====
-- Python's `dict`: the entries in insertion order, where a key that is written again keeps its place.
use mathlib.Core.Path.{◌≡◌, refl, sym, ap}
use mathlib.Core.Logic.{inl, inr}
use mathlib.Core.Bool.{Bool, true, false, ◌||◌}
use mathlib.Core.Option.{Option, none, some}
use mathlib.Core.List.Memᴰ.{Memᴰ, head, tail}
use mathlib.Core.List.{List, [], ◌∷◌, map}
use native.Mathlib.Omega.{arith}
use ha_device_links.Prelude.Tests.{Bool-cases, if◌then◌else◌, is_some}
use ha_device_links.Prelude.Equality.{Eq, ◌==◌, eq_refl, contains}
use ha_device_links.Prelude.Lists.{All, Distinct, count}

abbrev pub Dict {ℓ κ} : Type ℓ → Type κ → Type (ℓ ⊔ κ)
Dict K V = List (K × V)

module _ {ℓ κ} {K : Type ℓ} {V : Type κ} where
  -- `list(d)` and `list(d.values())`
  unfoldable pub keys : Dict K V → List K
  keys [] = []
  keys ((k, v) ∷ d) = k ∷ keys d

  unfoldable pub values : Dict K V → List V
  values [] = []
  values ((k, v) ∷ d) = v ∷ values d

  pub values-All : (P : V → Type 0) (d : Dict K V) → All (λ e. P e.1) d → All P (values d)
  unfolding values
  values-All P [] h = tt
  values-All P ((k, v) ∷ d) h = (h.0, values-All P d h.1)

module _ {ℓ κ} {K : Type ℓ} {V : Type κ} ⦃e : Eq K⦄ where
  -- `d.get(k)`
  unfoldable pub get : Dict K V → K → Option V
  get [] k = none
  get ((j, v) ∷ d) k = if j == k then some v else get d k

  -- `k in d`
  unfoldable pub has : Dict K V → K → Bool
  has d k = is_some (get d k)

  -- `d[k] = v`
  unfoldable pub put : Dict K V → K → V → Dict K V
  put [] k v = (k, v) ∷ []
  put ((j, w) ∷ d) k v = if j == k then (j, v) ∷ d else (j, w) ∷ put d k v

  pub get-put :
      (d : Dict K V) (k j : K) (v : V) → get (put d k v) j ≡ (if k == j then some v else get d j)
  unfolding get put
  get-put [] k j v = refl
  get-put ((i, w) ∷ d) k j v =
      ground (arith, e.beq_iff k j, e.beq_iff i k, e.beq_iff i j, get-put d k j v)

  -- `d.setdefault(k, v)`
  unfoldable pub set_default : Dict K V → K → V → Dict K V
  unfolding has put
  set_default d k v = if has d k then d else put d k v

  -- `d.pop(k, None)`
  unfoldable pub delete : Dict K V → K → Dict K V
  delete [] k = []
  delete ((j, v) ∷ d) k = let rest = delete d k in if j == k then rest else (j, v) ∷ rest

  pub get-delete :
      (d : Dict K V) (k j : K) → get (delete d k) j ≡ (if k == j then none else get d j)
  unfolding get delete
  get-delete [] k j = ground arith
  get-delete ((i, w) ∷ d) k j =
      ground (arith, e.beq_iff k j, e.beq_iff i k, e.beq_iff i j, get-delete d k j)

  pub has-keys : (d : Dict K V) (k : K) → has d k ≡ contains (keys d) k
  unfolding has get keys contains
  has-keys [] k = refl
  has-keys ((j, v) ∷ d) k = ground (arith, has-keys d k)

  pub contains-keys-put :
      (d : Dict K V) (k j : K) (v : V)
      → contains (keys (put d k v)) j ≡ (k == j || contains (keys d) j)
  unfolding put keys contains
  contains-keys-put [] k j v = ground arith
  contains-keys-put ((i, w) ∷ d) k j v =
      ground (arith, e.beq_iff i k, e.beq_iff i j, e.beq_iff k j, contains-keys-put d k j v)

  -- A dictionary holds a key once.
  pub put-Distinct :
      (d : Dict K V) (k : K) (v : V) → Distinct (keys d) → Distinct (keys (put d k v))
  unfolding put keys contains
  put-Distinct [] k v h = (refl, tt)
  put-Distinct ((j, w) ∷ d) k v h =
      ground (arith, e.beq_iff j k, e.beq_iff k j, contains-keys-put d k j v, put-Distinct d k v)

  pub put-All :
      (P : K × V → Type 0) (d : Dict K V) (k : K) (v : V) → P (k, v) → All P d → All P (put d k v)
  unfolding put
  put-All P [] k v p h = (p, tt)
  put-All P ((j, w) ∷ d) k v p h = elim (Bool-cases (j == k)) [
    | inl same ↦ rw same (rw (sym ((e.beq_iff j k).0 same)) at p, h.1)
    | inr other ↦ rw other (h.0, put-All P d k v p h.1)
  ]

  pub keys-put-All :
      (P : K → Type 0) (d : Dict K V) (k : K) (v : V)
      → P k
      → All P (keys d)
      → All P (keys (put d k v))
  unfolding put keys
  keys-put-All P [] k v p h = (p, tt)
  keys-put-All P ((j, w) ∷ d) k v p h = elim (Bool-cases (j == k)) [
    | inl same ↦ rw same h
    | inr other ↦ rw other (h.0, keys-put-All P d k v p h.1)
  ]

  pub get-mem : (d : Dict K V) (k : K) {v : V} → get d k ≡ some v → Memᴰ (k, v) d
  unfolding get
  get-mem [] k h = cc
  get-mem ((j, w) ∷ d) k {v} h = elim (Bool-cases (j == k)) [
    | inl same ↦ head (cc ((e.beq_iff j k).0 same, rw same at h))
    | inr other ↦ tail (get-mem d k (rw other at h))
  ]

module _ {ℓ κ} {K : Type ℓ} {V : Type κ} ⦃e : Eq K⦄ where
  mem-keys : (d : Dict K V) (k : K) (v : V) → Memᴰ (k, v) d → contains (keys d) k ≡ true
  unfolding keys contains
  mem-keys [] k v m = elim m [ ]
  mem-keys ((j, w) ∷ d) k v (head p) = rw (← ap (λ e. e.0) p, eq_refl k) refl
  mem-keys ((j, w) ∷ d) k v (tail m) = ground (arith, mem-keys d k v m)

  pub mem-get :
      (d : Dict K V) (k : K) (v : V) → Distinct (keys d) → Memᴰ (k, v) d → get d k ≡ some v
  unfolding get keys
  mem-get [] k v h m = elim m [ ]
  mem-get ((j, w) ∷ d) k v h (head p) =
      rw (← ap (λ e. e.0) p, eq_refl k) (ap some (sym (ap (λ e. e.1) p)))
  mem-get ((j, w) ∷ d) k v h (tail m) = elim (Bool-cases (j == k)) [
    | inr other ↦ rw other (mem-get d k v h.1 m)
    | inl same ↦
        let there : contains (keys d) j ≡ true = rw ((e.beq_iff j k).0 same) (mem-keys d k v m) in
        cc (there, h.0)
  ]

  count_absent : (d : Dict K V) (k : K) → contains (keys d) k ≡ false → count (λ x. x.0 == k) d ≡ 0
  unfolding keys contains count
  count_absent [] k h = refl
  count_absent ((j, v) ∷ d) k h = ground (arith, count_absent d k)

  -- A key stands in a dictionary once or not at all.
  pub count_key :
      (d : Dict K V) (k : K)
      → Distinct (keys d)
      → count (λ x. x.0 == k) d ≡ (if contains (keys d) k then 1 else 0)
  unfolding keys contains count
  count_key [] k h = refl
  count_key ((j, v) ∷ d) k h = ground (arith, e.beq_iff j k, count_absent d k, count_key d k)

-- `{key(x): x for x in xs}`
module _ {ℓ κ} {K : Type ℓ} {V : Type κ} ⦃e : Eq K⦄ (key : V → K) where
  unfoldable pub index_from : Dict K V → List V → Dict K V
  index_from d [] = d
  index_from d (x ∷ xs) = index_from (put d (key x) x) xs

  unfoldable pub index_by : List V → Dict K V
  unfolding index_from
  index_by xs = index_from [] xs

  index_from-All :
      (P : K × V → Type 0) (d : Dict K V) (xs : List V)
      → All P d
      → All (λ x. P (key x, x)) xs
      → All P (index_from d xs)
  unfolding index_from
  index_from-All P d [] h k = h
  index_from-All P d (x ∷ xs) h k =
      index_from-All P (put d (key x) x) xs (put-All P d (key x) x k.0 h) k.1

  -- What holds of every value under its own key holds of every entry.
  pub index_by-All :
      (P : K × V → Type 0) (xs : List V) → All (λ x. P (key x, x)) xs → All P (index_by xs)
  unfolding index_by
  index_by-All P xs h = index_from-All P [] xs tt h

  index_from-Distinct :
      (d : Dict K V) (xs : List V) → Distinct (keys d) → Distinct (keys (index_from d xs))
  unfolding index_from
  index_from-Distinct d [] h = h
  index_from-Distinct d (x ∷ xs) h =
      index_from-Distinct (put d (key x) x) xs (put-Distinct d (key x) x h)

  pub index_by-Distinct : (xs : List V) → Distinct (keys (index_by xs))
  unfolding index_by keys
  index_by-Distinct xs = index_from-Distinct [] xs tt

  contains-keys-index_from :
      (d : Dict K V) (xs : List V) (k : K)
      → contains (keys (index_from d xs)) k ≡ (contains (map key xs) k || contains (keys d) k)
  unfolding index_from contains
  contains-keys-index_from d [] k = refl
  contains-keys-index_from d (x ∷ xs) k =
      ground
        (arith, contains-keys-index_from (put d (key x) x) xs k, contains-keys-put d (key x) k x)

  pub contains-keys-index_by :
      (xs : List V) (k : K) → contains (keys (index_by xs)) k ≡ contains (map key xs) k
  unfolding index_by keys contains
  contains-keys-index_by xs k = ground (arith, contains-keys-index_from [] xs k)
