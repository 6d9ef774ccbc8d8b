-- ===== src/Coordinator/Held.antt =====
-- coordinator.py: a device is held exactly while a hold that names it is not released.
use ha_device_links.Prelude.{
  Text, Dict, ℕ, zero, suc, ◌+◌, ◌-◌, List, [], ◌∷◌, Option, some, none, false, ◌≡◌, refl, sym, ap,
  ◌∙◌, inl, inr, arith, Bool-cases, contains, get, put, get-put, get-delete, ◌==◌, eq_iff, list_eq,
  nat_eq, list_ord, nat_ord, if◌then◌else◌, count,
}
use ha_device_links.Coordinator.State.{Coordinator}
use ha_device_links.Coordinator.Holds.{
  or_zero, times, hold_all, release_one, release_all, is_due, arm_flush, device_changed,
  async_hold_refresh, release, start_flush, cancel_flush, Hold, Board, HoldEvent, hold, let_go,
  change, flush, cancel, get_hold, mark_released, call_release, happen, happen_all,
}

-- How often a device is named by the holds that are not released.
unfoldable pub outstanding : List Hold → Text → ℕ
outstanding [] i = 0
outstanding (h ∷ hs) i =
    (if h.released then 0 else count (λ j. j == i) h.identities) + outstanding hs i

-- A counter's entry: a count of 0 has none.
abbrev pub entry_of : ℕ → Option ℕ
entry_of zero = none
entry_of (suc n) = some (suc n)

or_zero-entry_of : (n : ℕ) → or_zero (entry_of n) ≡ n
or_zero-entry_of zero = refl
or_zero-entry_of (suc n) = refl

entry_of-positive : (m n : ℕ) → m ≡ n + 1 → entry_of m ≡ some m
entry_of-positive zero n h = absurd (omega arith)
entry_of-positive (suc m) n h = refl

-- A counter that counts each device as often as a function says.
abbrev pub IsTally : Dict Text ℕ → (Text → ℕ) → Type 0
IsTally held f = (i : Text) → get held i ≡ entry_of (f i)

times-IsTally :
    (held : Dict Text ℕ) (f : Text → ℕ) → IsTally held f → (i : Text) → times held i ≡ f i
unfolding times
times-IsTally held f h i = rw (h i) (or_zero-entry_of (f i))

get-release_one :
    (held : Dict Text ℕ) (i : Text) (n : ℕ) (j : Text)
    → get (release_one held i n) j ≡ (if i == j then entry_of n else get held j)
unfolding release_one
get-release_one held i zero j = get-delete held i j
get-release_one held i (suc n) j = get-put held i j (suc n)

put-IsTally :
    (held : Dict Text ℕ) (i : Text) (f g : Text → ℕ)
    → IsTally held f
    → ((j : Text) → g j ≡ (if i == j then 1 else 0) + f j)
    → IsTally (put held i (times held i + 1)) g
put-IsTally held i f g h k j = elim (Bool-cases (i == j)) [
  | inl same ↦
      let e : i ≡ j = (eq_iff i j).0 same in
      let n : times held i ≡ f j = times-IsTally held f h i ∙ rw e refl in
      let m : g j ≡ f j + 1 = omega (arith, k j, rw same at (k j)) in
      get-put held i j (times held i + 1)
      ∙ rw (same, n) (rw (← m) (sym (entry_of-positive (g j) (f j) m)))
  | inr other ↦
      let m : g j ≡ f j = omega (arith, rw other at (k j)) in
      get-put held i j (times held i + 1) ∙ rw (other, m) (h j)
]

hold_all-IsTally :
    (held : Dict Text ℕ) (is : List Text) (f g : Text → ℕ)
    → IsTally held f
    → ((j : Text) → g j ≡ count (λ i. i == j) is + f j)
    → IsTally (hold_all held is) g
unfolding hold_all count
hold_all-IsTally held [] f g h k = λ j. h j ∙ ap entry_of (omega (arith, k j))
hold_all-IsTally held (i ∷ is) f g h k =
    hold_all-IsTally (put held i (times held i + 1)) is (λ j. (if i == j then 1 else 0) + f j) g
      (put-IsTally held i f (λ j. (if i == j then 1 else 0) + f j) h (λ j. refl))
      (λ j. omega (arith, k j))

release_one-IsTally :
    (held : Dict Text ℕ) (i : Text) (f g : Text → ℕ)
    → IsTally held f
    → ((j : Text) → f j ≡ (if i == j then 1 else 0) + g j)
    → IsTally (release_one held i (times held i - 1)) g
release_one-IsTally held i f g h k j = elim (Bool-cases (i == j)) [
  | inl same ↦
      let e : i ≡ j = (eq_iff i j).0 same in
      let n : times held i ≡ f j = times-IsTally held f h i ∙ rw e refl in
      let m : times held i - 1 ≡ g j = omega (arith, n, rw same at (k j)) in
      get-release_one held i (times held i - 1) j ∙ rw (same, m) refl
  | inr other ↦
      let m : f j ≡ g j = omega (arith, rw other at (k j)) in
      get-release_one held i (times held i - 1) j ∙ rw (other, ← m) (h j)
]

release_all-IsTally :
    (held : Dict Text ℕ) (is : List Text) (f g : Text → ℕ)
    → IsTally held f
    → ((j : Text) → f j ≡ count (λ i. i == j) is + g j)
    → IsTally (release_all held is) g
unfolding release_all count
release_all-IsTally held [] f g h k = λ j. h j ∙ ap entry_of (omega (arith, k j))
release_all-IsTally held (i ∷ is) f g h k =
    release_all-IsTally (release_one held i (times held i - 1)) is
      (λ j. count (λ i. i == j) is + g j) g
      (release_one-IsTally held i f (λ j. count (λ i. i == j) is + g j) h (λ j. omega (arith, k j)))
      (λ j. refl)

outstanding-mark_released :
    (hs : List Hold) (n : ℕ) (h : Hold) (i : Text)
    → get_hold hs n ≡ some h
    → h.released ≡ false
    → outstanding hs i ≡ count (λ j. j == i) h.identities + outstanding (mark_released hs n) i
unfolding outstanding mark_released
outstanding-mark_released [] n h i e k = cc e
outstanding-mark_released (g ∷ hs) zero h i e k = ground (arith, e, k)
outstanding-mark_released (g ∷ hs) (suc n) h i e k =
    omega (arith, outstanding-mark_released hs n h i e k)

held-arm_flush : (c : Coordinator) → (arm_flush c).held ≡ c.held
unfolding arm_flush
held-arm_flush c = elim (Bool-cases c.flush_armed) [
  | inl armed ↦ rw armed refl
  | inr idle ↦ elim (Bool-cases (is_due c)) [
    | inl due ↦ rw (idle, due) refl
    | inr calm ↦ rw (idle, calm) refl
  ]
]

abbrev pub IsExact : Board → Type 0
IsExact b = IsTally b.coordinator.held (outstanding b.holds)

call_release-IsExact :
    (b : Board) (n : ℕ) (o : Option Hold)
    → get_hold b.holds n ≡ o
    → IsExact b
    → IsExact (call_release b n o)
unfolding call_release release
call_release-IsExact b n none e h = h
call_release-IsExact b n (some g) e h = elim (Bool-cases g.released) [
  | inl again ↦ rw again h
  | inr first ↦
      rw
        (
          first,
          held-arm_flush
              (record b.coordinator { held = release_all b.coordinator.held g.identities }),
        )
        (release_all-IsTally b.coordinator.held g.identities (outstanding b.holds)
          (outstanding (mark_released b.holds n)) h
          (λ i. outstanding-mark_released b.holds n g i e first))
]

happen-IsExact : (b : Board) (e : HoldEvent) → IsExact b → IsExact (happen b e)
unfolding happen async_hold_refresh outstanding device_changed start_flush cancel_flush
happen-IsExact b (hold is) h =
    hold_all-IsTally b.coordinator.held is (outstanding b.holds) _ h (λ i. refl)
happen-IsExact b (let_go n) h = call_release-IsExact b n (get_hold b.holds n) refl h
happen-IsExact b (change i) h =
    rw
      (held-arm_flush (record b.coordinator {
        pending =
            if contains b.coordinator.pending i
            then b.coordinator.pending
            else i ∷ b.coordinator.pending;
      }))
      h
happen-IsExact b flush h = elim (Bool-cases b.coordinator.flush_armed) [
  | inl t ↦ rw t h
  | inr f ↦ rw f h
]
happen-IsExact b cancel h = h

-- Whatever is held, released (once or again), reported, read and cancelled, in any order: the
-- counter holds a device exactly as often as the holds that are not released name it, and has no
-- entry for any other.
pub happen_all-IsExact : (b : Board) (es : List HoldEvent) → IsExact b → IsExact (happen_all b es)
unfolding happen_all
happen_all-IsExact b [] h = h
happen_all-IsExact b (e ∷ es) h = happen_all-IsExact (happen b e) es (happen-IsExact b e h)
