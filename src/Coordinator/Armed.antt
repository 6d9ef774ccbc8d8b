-- ===== src/Coordinator/Armed.antt =====
-- coordinator.py: no change of a device that is not held waits without a timer.
use ha_device_links.Prelude.{
  Text, Dict, ℕ, ◌+◌, List, [], ◌∷◌, Option, some, none, Bool, true, false, not, ◌≡◌, refl, inl,
  inr, arith, Bool-cases, any, keep, contains, has, put, get-put, ◌==◌, list_eq, nat_eq, list_ord,
  nat_ord, if◌then◌else◌, if_intro,
}
use ha_device_links.Coordinator.State.{Coordinator}
use ha_device_links.Coordinator.Holds.{
  times, hold_all, release_all, is_due, arm_flush, device_changed, async_hold_refresh, release,
  start_flush, cancel_flush, Hold, Board, HoldEvent, hold, let_go, change, flush, cancel, get_hold,
  call_release, happen, happen_all,
}

-- A timer runs while a device that is not held waits to be read.
abbrev pub IsArmed : Coordinator → Type 0
IsArmed c = is_due c ≡ true → c.flush_armed ≡ true

arm_flush-IsArmed : (c : Coordinator) → IsArmed (arm_flush c)
unfolding arm_flush
arm_flush-IsArmed c =
    if_intro IsArmed c.flush_armed c _ (λ armed due. armed)
      (λ idle. if_intro IsArmed (is_due c) _ c (λ due h. refl) (λ calm h. cc (h, calm)))

any_mono :
    (p q : Text → Bool) (xs : List Text)
    → ((x : Text) → p x ≡ true → q x ≡ true)
    → any p xs ≡ true
    → any q xs ≡ true
unfolding any
any_mono p q [] f h = h
any_mono p q (x ∷ xs) f h = ground (arith, h, f x, any_mono p q xs f)

has-put :
    (held : Dict Text ℕ) (i j : Text) (n : ℕ) → has held j ≡ true → has (put held i n) j ≡ true
unfolding has
has-put held i j n h = elim (Bool-cases (i == j)) [
  | inl same ↦ rw (get-put held i j n, same) refl
  | inr other ↦ rw (get-put held i j n, other) h
]

has-hold_all :
    (held : Dict Text ℕ) (is : List Text) (j : Text)
    → has held j ≡ true
    → has (hold_all held is) j ≡ true
unfolding hold_all
has-hold_all held [] j h = h
has-hold_all held (i ∷ is) j h =
    has-hold_all (put held i (times held i + 1)) is j (has-put held i j (times held i + 1) h)

any-keep-none : (p : Text → Bool) (xs : List Text) → any (λ x. not (p x)) (keep p xs) ≡ false
unfolding any keep
any-keep-none p [] = refl
any-keep-none p (x ∷ xs) = ground (arith, any-keep-none p xs)

async_hold_refresh-IsArmed :
    (is : List Text) (c : Coordinator) → IsArmed c → IsArmed (async_hold_refresh is c)
unfolding async_hold_refresh
async_hold_refresh-IsArmed is c h due = h (
    any_mono (λ i. not (has (hold_all c.held is) i)) (λ i. not (has c.held i)) c.pending
      (λ i free. elim (Bool-cases (has c.held i)) [
        | inr f ↦ rw f refl
        | inl t ↦ cc (free, has-hold_all c.held is i t)
      ])
      due)

release-IsArmed : (is : List Text) (c : Coordinator) → IsArmed (release is c)
unfolding release
release-IsArmed is c = arm_flush-IsArmed (record c { held = release_all c.held is })

device_changed-IsArmed : (i : Text) (c : Coordinator) → IsArmed (device_changed i c)
unfolding device_changed
device_changed-IsArmed i c =
    arm_flush-IsArmed
      (record c { pending = if contains c.pending i then c.pending else i ∷ c.pending })

call_release-IsArmed :
    (b : Board) (n : ℕ) (o : Option Hold)
    → IsArmed b.coordinator
    → IsArmed (call_release b n o).coordinator
unfolding call_release
call_release-IsArmed b n none h = h
call_release-IsArmed b n (some g) h =
    if_intro (λ (d : Board). IsArmed d.coordinator) g.released b _ (λ again. h)
      (λ first. release-IsArmed g.identities b.coordinator)

happen-IsArmed :
    (b : Board) (e : HoldEvent) → IsArmed b.coordinator → IsArmed (happen b e).coordinator
unfolding happen start_flush cancel_flush any
happen-IsArmed b (hold is) h = async_hold_refresh-IsArmed is b.coordinator h
happen-IsArmed b (let_go n) h = call_release-IsArmed b n (get_hold b.holds n) h
happen-IsArmed b (change i) h = device_changed-IsArmed i b.coordinator
happen-IsArmed b flush h =
    if_intro (λ (d : Board). IsArmed d.coordinator) b.coordinator.flush_armed _ b
      (λ t due. cc (due, any-keep-none (λ i. has b.coordinator.held i) b.coordinator.pending))
      (λ f. h)
happen-IsArmed b cancel h = λ due. cc due

-- Whatever is held, released, reported, read and cancelled, in any order: no device that is not held
-- waits to be read without a timer that will read it.
pub happen_all-IsArmed :
    (b : Board) (es : List HoldEvent)
    → IsArmed b.coordinator
    → IsArmed (happen_all b es).coordinator
unfolding happen_all
happen_all-IsArmed b [] h = h
happen_all-IsArmed b (e ∷ es) h = happen_all-IsArmed (happen b e) es (happen-IsArmed b e h)
