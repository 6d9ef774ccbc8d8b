-- ===== src/Executor/Left.antt =====
-- executor.py: each event of a device leaves fewer events and calls to come.
use ha_device_links.Prelude.{
  list_eq, nat_eq, Text, ℕ, zero, suc, ◌+◌, ◌*◌, ◌≤◌, ◌<◌, List, [], ◌∷◌, Option, some, none, Bool,
  true, false, ◌≡◌, inl, inr, arith, Bool-cases, length, count, ◌==◌, if◌then◌else◌,
}
use ha_device_links.Backends.{LinkResult, LinkResultStatus, status_eq}
use ha_device_links.Models.{item_link}
use ha_device_links.Executor.Types.{Job, Write, Stop, set_op, not_attempted}
use ha_device_links.Executor.Device.{
  Phase, waiting, calling, sleeping, verifying, finished, Task, Move, Event, begin, answer, wake,
  read, abort, next_write, write_from, after_last, pause_with, with_outcome, after_result,
  after_pause, act, settled, enter_flight, call_result,
}
use ha_device_links.Executor.Run.{stop}

-- The events that are left at most, from a phase of a device with so many writes.
abbrev pub events_left : ℕ → Phase → ℕ
events_left n waiting = 6 * n + 2
events_left n (calling w r rest) = 2 * r + 2 + 6 * length rest
events_left n (sleeping w x r rest) = 2 * r + 3 + 6 * length rest
events_left n verifying = 1
events_left n finished = 0

-- Some calls, if a write is one of those that are counted.
abbrev pub calls_for : (Write → Bool) → Write → ℕ → ℕ
calls_for p w n = if p w then n else 0

-- The calls of the adapter that are left at most for the writes of a kind, from a phase of a device
-- with some writes.
abbrev pub calls_left : (Write → Bool) → List Write → Phase → ℕ
calls_left p ws waiting = 3 * count p ws
calls_left p ws (calling w r rest) = calls_for p w r + 3 * count p rest
calls_left p ws (sleeping w x r rest) = calls_for p w (r + 1) + 3 * count p rest
calls_left p ws _ = 0

-- A move of a device with some writes that has so much left before it.
abbrev IsWithin : (Write → Bool) → List Write → ℕ → ℕ → Move → Type 0
IsWithin p all events calls m =
    (events_left (length all) m.phase ≤ events)
    × (count p m.calls + calls_left p all m.phase ≤ calls)

write_from-IsWithin :
    (p : Write → Bool) (all : List Write) (stop : Option Stop) (device : Text) (attempted : Bool)
    (ws : List Write) (j : Job)
    → IsWithin p all (6 * length ws + 1) (3 * count p ws) (write_from stop device attempted ws j)
unfolding write_from after_last count
write_from-IsWithin p all stop device true [] j = omega arith
write_from-IsWithin p all stop device false [] j = omega arith
write_from-IsWithin p all none device attempted (w ∷ ws) j = elim (Bool-cases (p w)) [
  | inl y ↦ rw y (omega arith)
  | inr n ↦ rw n (omega arith)
]
write_from-IsWithin p all (some s) device attempted (w ∷ ws) j =
    let (e, c) =
      write_from-IsWithin p all (some s) device attempted ws
        (set_op j w.op (with_outcome (not_attempted s))) in
    (omega arith, omega arith)

next_write-IsWithin :
    (p : Write → Bool) (all : List Write) (device : Text) (attempted : Bool) (ws : List Write)
    (j : Job)
    → IsWithin p all (6 * length ws + 1) (3 * count p ws) (next_write device attempted ws j)
unfolding next_write
next_write-IsWithin p all device attempted ws j =
    write_from-IsWithin p all j.stop device attempted ws j

after_result-IsWithin :
    (p : Write → Bool) (all : List Write) (device : Text) (w : Write) (r : LinkResult) (k : ℕ)
    (ws : List Write) (j : Job)
    → IsWithin p all
        (2 * k + 1 + 6 * length ws)
        (calls_for p w k + 3 * count p ws)
        (after_result device w r k ws j)
unfolding after_result count
after_result-IsWithin p all device w r zero ws j =
    let (e, c) = next_write-IsWithin p all device true ws (set_op j w.op (settled r)) in
    (omega arith, omega arith)
after_result-IsWithin p all device w r (suc k) ws j =
    elim (Bool-cases (r.status == LinkResultStatus.failed)) [
      | inl failed ↦ elim (Bool-cases (p w)) [
        | inl y ↦ rw failed (rw y (omega arith))
        | inr n ↦ rw failed (rw n (omega arith))
      ]
      | inr done ↦ rw done (
          let (e, c) = next_write-IsWithin p all device true ws (set_op j w.op (settled r)) in
          (omega arith, omega arith))
    ]

pause_with-IsWithin :
    (p : Write → Bool) (all : List Write) (stop : Option Stop) (device : Text) (w : Write)
    (r : LinkResult) (k : ℕ) (ws : List Write) (j : Job)
    → IsWithin p all
        (2 * k + 2 + 6 * length ws)
        (calls_for p w (k + 1) + 3 * count p ws)
        (pause_with stop device w r k ws j)
unfolding pause_with count
pause_with-IsWithin p all none device w r k ws j = elim (Bool-cases (p w)) [
  | inl y ↦ rw y (omega arith)
  | inr n ↦ rw n (omega arith)
]
pause_with-IsWithin p all (some s) device w r k ws j =
    let (e, c) = next_write-IsWithin p all device true ws (set_op j w.op (settled r)) in
    (omega arith, omega arith)

after_pause-IsWithin :
    (p : Write → Bool) (all : List Write) (device : Text) (w : Write) (r : LinkResult) (k : ℕ)
    (ws : List Write) (j : Job)
    → IsWithin p all
        (2 * k + 2 + 6 * length ws)
        (calls_for p w (k + 1) + 3 * count p ws)
        (after_pause device w r k ws j)
unfolding after_pause
after_pause-IsWithin p all device w r k ws j = pause_with-IsWithin p all j.stop device w r k ws j

pub act-left :
    (p : Write → Bool) (seconds : Text) (t : Task) (j : Job) (e : Event) (phase : Phase) (m : Move)
    → act seconds t j e phase ≡ some m
    → (events_left (length t.writes) m.phase < events_left (length t.writes) phase)
      × (count p m.calls + calls_left p t.writes m.phase ≤ calls_left p t.writes phase)
unfolding act count
act-left p seconds t j begin waiting m h =
    let q : next_write t.device false t.writes (enter_flight j t.device) ≡ m = (cc h) in
    rw (← q) (
      let (e, c) =
        next_write-IsWithin p t.writes t.device false t.writes (enter_flight j t.device) in
      (omega arith, omega arith))
act-left p seconds t j (answer a) (calling w k ws) m h =
    let q : after_result t.device w (call_result seconds (item_link w.link) a) k ws j ≡ m =
      (cc h) in
    rw (← q) (
      let (e, c) =
        after_result-IsWithin p t.writes t.device w (call_result seconds (item_link w.link) a) k ws
          j in
      (omega arith, omega arith))
act-left p seconds t j wake (sleeping w r k ws) m h =
    let q : after_pause t.device w r k ws j ≡ m = (cc h) in
    rw (← q) (
      let (e, c) = after_pause-IsWithin p t.writes t.device w r k ws j in
      (omega arith, omega arith))
act-left p seconds t j (read d now) verifying m h = ground arith
act-left p seconds t j abort finished m h = cc h
act-left p seconds t j abort waiting m h = ground arith
act-left p seconds t j abort (calling w k ws) m h = ground arith
act-left p seconds t j abort (sleeping w r k ws) m h = ground arith
act-left p seconds t j abort verifying m h = ground arith
act-left p seconds t j _ _ m h = cc h
