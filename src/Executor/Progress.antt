-- ===== src/Executor/Progress.antt =====
-- executor.py: a job takes no more than so many events, and no more than so many calls.
use ha_device_links.Prelude.{
  Dict, contains, list_eq, nat_eq, Text, ℕ, zero, suc, ◌+◌, ◌*◌, ◌≤◌, ◌<◌, List, [], ◌∷◌, Option,
  some, none, true, ◌≡◌, refl, inl, inr, arith, Bool-cases, length, ◌++◌, count, count-append, Bool,
  All,
}
use ha_device_links.Backends.{status_eq}
use mathlib.Core.Option
use ha_device_links.Models.{DeviceHandle, Plan}
use ha_device_links.Coordinator.{Coordinator}
use ha_device_links.Executor.Prepare.{grouped, stale_devices}
use ha_device_links.Executor.Types.{Job, Write, Stop}
use ha_device_links.Executor.Device.{Phase, waiting, Task, Move, Event, act}
use ha_device_links.Executor.Run.{
  World, get_task, set_phase, is_admitted, moved, deliver, deliver_to, new_tasks, launched, stop,
  Reach, delivered, halted, here, next,
}
use ha_device_links.Executor.Left.{events_left, calls_left, act-left}

-- What is left of all devices.
unfoldable pub events_of : List Task → ℕ
events_of [] = 0
events_of (t ∷ ts) = events_left (length t.writes) t.phase + events_of ts

unfoldable pub calls_of : (Write → Bool) → List Task → ℕ
calls_of p [] = 0
calls_of p (t ∷ ts) = calls_left p t.writes t.phase + calls_of p ts

set_phase-left :
    (p : Write → Bool) (ts : List Task) (i : ℕ) (t : Task) (phase : Phase)
    → get_task ts i ≡ some t
    → (events_of (set_phase ts i phase) + events_left (length t.writes) t.phase
        ≡ events_of ts + events_left (length t.writes) phase)
      × (calls_of p (set_phase ts i phase) + calls_left p t.writes t.phase
          ≡ calls_of p ts + calls_left p t.writes phase)
unfolding set_phase events_of calls_of
set_phase-left p [] i t phase h = cc h
set_phase-left p (u ∷ ts) zero t phase h = let e : u ≡ t = (cc h) in rw (← e) (omega arith)
set_phase-left p (u ∷ ts) (suc i) t phase h =
    let (a, b) = set_phase-left p ts i t phase h in (omega arith, omega arith)

pub map-eq-some :
    {A B : Type 0} (f : A → B) (o : Option A) (b : B)
    → Option.map f o ≡ some b
    → (a : A) × (o ≡ some a) × (b ≡ f a)
map-eq-some f none b h = cc h
map-eq-some f (some a) b h = (a, refl, cc h)

-- What a delivered event does: the coroutine that waits for it makes a move.
abbrev pub IsMove : ℕ → Text → World → ℕ → Event → World → Type 0
IsMove limit seconds s i e u =
    (t : Task) × (m : Move) × (get_task s.tasks i ≡ some t)
    × (act seconds t s.job e t.phase ≡ some m)
    × (is_admitted limit s.tasks e ≡ true)
    × (u ≡ moved s i m)

deliver_to-IsMove :
    (limit : ℕ) (seconds : Text) (s u : World) (i : ℕ) (e : Event) (o : Option Task)
    → get_task s.tasks i ≡ o
    → is_admitted limit s.tasks e ≡ true
    → deliver_to seconds s i e o ≡ some u
    → IsMove limit seconds s i e u
unfolding deliver_to
deliver_to-IsMove limit seconds s u i e none p a h = cc h
deliver_to-IsMove limit seconds s u i e (some t) p a h =
    let (m, q, r) = map-eq-some (moved s i) (act seconds t s.job e t.phase) u h in
    (t, m, p, q, a, r)

pub deliver-IsMove :
    (limit : ℕ) (seconds : Text) (s u : World) (i : ℕ) (e : Event)
    → deliver limit seconds s i e ≡ some u
    → IsMove limit seconds s i e u
unfolding deliver
deliver-IsMove limit seconds s u i e h = elim (Bool-cases (is_admitted limit s.tasks e)) [
  | inr refused ↦ cc (rw refused at h)
  | inl admitted ↦
      deliver_to-IsMove limit seconds s u i e (get_task s.tasks i) refl admitted (rw admitted at h)
]

pub deliver-left :
    (p : Write → Bool) (limit : ℕ) (seconds : Text) (s u : World) (i : ℕ) (e : Event)
    → deliver limit seconds s i e ≡ some u
    → (events_of u.tasks < events_of s.tasks)
      × (count p u.calls + calls_of p u.tasks ≤ count p s.calls + calls_of p s.tasks)
deliver-left p limit seconds s u i e h =
    let (t, m, found, does, _, after) = deliver-IsMove limit seconds s u i e h in
    let (a, b) = set_phase-left p s.tasks i t m.phase found in
    let (c, d) = act-left p seconds t s.job e t.phase m does in
    rw after (omega arith, omega (arith, count-append p s.calls m.calls))

unfoldable pub write_count : List Task → ℕ
write_count [] = 0
write_count (t ∷ ts) = length t.writes + write_count ts

-- The writes that the devices are launched with.
unfoldable pub writes_of : List Task → List Write
writes_of [] = []
writes_of (t ∷ ts) = t.writes ++ writes_of ts

abbrev pub AllWaiting : List Task → Type 0
AllWaiting ts = All (λ (t : Task). t.phase ≡ waiting) ts

waiting-left :
    (p : Write → Bool) (ts : List Task)
    → AllWaiting ts
    → (events_of ts ≡ 6 * write_count ts + 2 * length ts)
      × (calls_of p ts ≡ 3 * count p (writes_of ts))
unfolding events_of calls_of write_count writes_of count
waiting-left p [] h = omega arith
waiting-left p (t ∷ ts) h =
    let (a, b) = waiting-left p ts h.1 in
    rw h.0 (omega arith, omega (arith, count-append p t.writes (writes_of ts)))

stop-left :
    (why : Stop) (s : World) → ((stop why s).tasks ≡ s.tasks) × ((stop why s).calls ≡ s.calls)
unfolding stop
stop-left why s = (refl, refl)

-- The events that were delivered on the way.
abbrev pub deliveries : {limit : ℕ} {seconds : Text} {s t : World} → Reach limit seconds s t → ℕ
deliveries here = 0
deliveries (next r (delivered i e h)) = deliveries r + 1
deliveries (next r (halted why h)) = deliveries r

Reach-left :
    {limit : ℕ} {seconds : Text} {s t : World} (p : Write → Bool) (r : Reach limit seconds s t)
    → (deliveries r + events_of t.tasks ≤ events_of s.tasks)
      × (count p t.calls + calls_of p t.tasks ≤ count p s.calls + calls_of p s.tasks)
Reach-left p here = omega arith
Reach-left {limit} {seconds} p (next {t} {u} r (delivered i e h)) =
    let (a, b) = Reach-left p r in
    let (c, d) = deliver-left p limit seconds t u i e h in (omega arith, omega arith)
Reach-left p (next {t} {u} r (halted why h)) =
    let (a, b) = Reach-left p r in let (c, d) = stop-left why t in rw h (rw (c, d) (a, b))

new_tasks-AllWaiting :
    (stale : List Text) (groups : List (Text × List Write)) → AllWaiting (new_tasks stale groups)
unfolding new_tasks
new_tasks-AllWaiting stale [] = tt
new_tasks-AllWaiting stale ((device, ws) ∷ rest) = elim (Bool-cases (contains stale device)) [
  | inl old ↦ rw old (new_tasks-AllWaiting stale rest)
  | inr fresh ↦ rw fresh (refl, new_tasks-AllWaiting stale rest)
]

pub launched-bounded :
    {limit : ℕ} {seconds : Text} {t : World} (c : Coordinator) (plan fresh : Plan)
    (handles : Dict Text DeviceHandle) (j : Job) (p : Write → Bool)
    (r : Reach limit seconds (launched c plan fresh handles j) t)
    → (deliveries r
        ≤ 6 * write_count (launched c plan fresh handles j).tasks
          + 2 * length (launched c plan fresh handles j).tasks)
      × (count p t.calls ≤ 3 * count p (writes_of (launched c plan fresh handles j).tasks))
unfolding launched count
launched-bounded c plan fresh handles j p r =
    let (a, b) = Reach-left p r in
    let by_device = grouped j.writes in
    let stale = stale_devices plan fresh j.ops by_device in
    let (e, f) =
      waiting-left p (new_tasks stale by_device) (new_tasks-AllWaiting stale by_device) in
    (omega arith, omega arith)
