-- ===== src/Executor/Liveness.antt =====
-- executor.py: while a device of a job is not finished, something can happen.
use ha_device_links.Prelude.{
  Text, ℕ, zero, suc, ◌<◌, List, [], ◌∷◌, some, none, true, ◌≡◌, ◌≢◌, ◌⊎◌, refl, inl, inr, arith,
  count, All,
}
use ha_device_links.Executor.Types.{Job}
use ha_device_links.Executor.Device.{
  Phase, waiting, calling, sleeping, verifying, finished, Task, Move, Event, begin, answer, wake,
  read, abort, timed_out, act,
}
use ha_device_links.Executor.Run.{
  World, get_task, is_active, is_admitted, moved, deliver, deliver_to, Reach, here, next, delivered,
  halted,
}
use ha_device_links.Executor.Progress.{events_of, deliver-left}

-- The event that a coroutine waits for.
abbrev awaited : Phase → Event
awaited waiting = begin
awaited (calling w k ws) = answer timed_out
awaited (sleeping w r k ws) = wake
awaited verifying = read none []
awaited finished = abort

act-awaited :
    (seconds : Text) (t : Task) (j : Job) (p : Phase)
    → p ≢ finished
    → (m : Move) × (act seconds t j (awaited p) p ≡ some m)
unfolding act
act-awaited seconds t j waiting h = (_, refl)
act-awaited seconds t j (calling w k ws) h = (_, refl)
act-awaited seconds t j (sleeping w r k ws) h = (_, refl)
act-awaited seconds t j verifying h = (_, refl)
act-awaited seconds t j finished h = absurd (h refl)

awaited-ne-abort : (p : Phase) → p ≢ finished → awaited p ≢ abort
awaited-ne-abort finished h q = absurd (h refl)
awaited-ne-abort waiting h q = cc q
awaited-ne-abort (calling w k ws) h q = cc q
awaited-ne-abort (sleeping w r k ws) h q = cc q
awaited-ne-abort verifying h q = cc q

abbrev Has : (Phase → Type 0) → List Task → Type 0
Has P ts = (i : ℕ) × (t : Task) × (get_task ts i ≡ some t) × P t.phase

later : (P : Phase → Type 0) (u : Task) (ts : List Task) → Has P ts → Has P (u ∷ ts)
later P u ts (i, t, found, p) = (suc i, t, found, p)

abbrev IsInside : Phase → Type 0
IsInside p = (p ≢ waiting) × (p ≢ finished)

abbrev IsWaiting : Phase → Type 0
IsWaiting p = p ≡ waiting

-- A coroutine is inside the semaphore, or none is: then one waits for it, or all are finished.
abbrev Situation : List Task → Type 0
Situation ts =
    Has IsInside ts
    ⊎ ((count is_active ts ≡ 0) × (Has IsWaiting ts ⊎ All (λ (t : Task). t.phase ≡ finished) ts))

cons-Situation :
    (u : Task) (ts : List Task) (p : Phase) → u.phase ≡ p → Situation ts → Situation (u ∷ ts)
unfolding count
cons-Situation u ts waiting e (inl h) = inl (later IsInside u ts h)
cons-Situation u ts waiting e (inr (none_active, h)) = inr (rw e (omega arith), inl (0, u, refl, e))
cons-Situation u ts finished e (inl h) = inl (later IsInside u ts h)
cons-Situation u ts finished e (inr (none_active, inl h)) =
    inr (rw e (omega arith), inl (later IsWaiting u ts h))
cons-Situation u ts finished e (inr (none_active, inr h)) = inr (rw e (omega arith), inr (e, h))
cons-Situation u ts (calling w k ws) e h = inl (0, u, refl, rw e ((λ q. cc q), (λ q. cc q)))
cons-Situation u ts (sleeping w r k ws) e h = inl (0, u, refl, rw e ((λ q. cc q), (λ q. cc q)))
cons-Situation u ts verifying e h = inl (0, u, refl, rw e ((λ q. cc q), (λ q. cc q)))

situation : (ts : List Task) → Situation ts
unfolding count
situation [] = inr (refl, inr tt)
situation (u ∷ ts) = cons-Situation u ts u.phase refl (situation ts)

deliver_at :
    (limit : ℕ) (seconds : Text) (s : World) (i : ℕ) (t : Task)
    → get_task s.tasks i ≡ some t
    → t.phase ≢ finished
    → is_admitted limit s.tasks (awaited t.phase) ≡ true
    → (u : World) × (deliver limit seconds s i (awaited t.phase) ≡ some u)
unfolding deliver deliver_to
deliver_at limit seconds s i t found open_yet admitted =
    let (m, does) = act-awaited seconds t s.job t.phase open_yet in
    (moved s i m, rw (admitted, found, does) refl)

inside-admitted :
    (limit : ℕ) (ts : List Task) (p : Phase) → IsInside p → is_admitted limit ts (awaited p) ≡ true
inside-admitted limit ts waiting h = absurd (h.0 refl)
inside-admitted limit ts finished h = absurd (h.1 refl)
inside-admitted limit ts (calling w k ws) h = refl
inside-admitted limit ts (sleeping w r k ws) h = refl
inside-admitted limit ts verifying h = refl

-- As long as the semaphore lets a device in at all, every device of a job is finished or there is an
-- event that one of them waits for.
deliver-or-finished :
    (limit : ℕ) (seconds : Text) (s : World)
    → 0 < limit
    → ((i : ℕ) × (e : Event) × (u : World) × (e ≢ abort) × (deliver limit seconds s i e ≡ some u))
      ⊎ All (λ (t : Task). t.phase ≡ finished) s.tasks
deliver-or-finished limit seconds s h = elim (situation s.tasks) [
  | inl (i, t, found, inside) ↦
      let (u, does) =
        deliver_at limit seconds s i t found inside.1
          (inside-admitted limit s.tasks t.phase inside) in
      inl (i, awaited t.phase, u, awaited-ne-abort t.phase inside.1, does)
  | inr (none_active, inr done) ↦ inr done
  | inr (none_active, inl (i, t, found, waits)) ↦
      let admitted : is_admitted limit s.tasks (awaited t.phase) ≡ true =
        rw waits (rw none_active (ground arith)) in
      let (u, does) = deliver_at limit seconds s i t found (λ q. cc (waits, q)) admitted in
      inl (i, awaited t.phase, u, awaited-ne-abort t.phase (λ q. cc (waits, q)), does)
]

-- On the way no device was left by an exception.
abbrev pub IsSmooth : {limit : ℕ} {seconds : Text} {s t : World} → Reach limit seconds s t → Type 0
IsSmooth here = Unit
IsSmooth (next r (delivered i e h)) = IsSmooth r × (e ≢ abort)
IsSmooth (next r (halted why h)) = IsSmooth r

finish_from :
    (fuel limit : ℕ) (seconds : Text) (s t : World) (r : Reach limit seconds s t)
    → 0 < limit
    → events_of t.tasks < fuel
    → IsSmooth r
    → (u : World) × (q : Reach limit seconds s u) × IsSmooth q
      × All (λ (t : Task). t.phase ≡ finished) u.tasks
finish_from zero limit seconds s t r h m k = absurd (omega arith)
finish_from (suc fuel) limit seconds s t r h m k = elim (deliver-or-finished limit seconds t h) [
  | inr done ↦ (t, r, k, done)
  | inl (i, e, u, goes_on, does) ↦
      let (less, _) = deliver-left (λ _. true) limit seconds t u i e does in
      finish_from fuel limit seconds s u (next r (delivered i e does)) h (omega arith) (k, goes_on)
]

-- A job can always be brought to its end: as long as the semaphore lets a device in at all, there is
-- from every state a way on which no exception leaves a device and at whose end all are finished.
pub Reach-finished :
    (limit : ℕ) (seconds : Text) (s : World)
    → 0 < limit
    → (u : World) × (q : Reach limit seconds s u) × IsSmooth q
      × All (λ (t : Task). t.phase ≡ finished) u.tasks
Reach-finished limit seconds s h =
    finish_from (suc (events_of s.tasks)) limit seconds s s here h (omega arith) tt
