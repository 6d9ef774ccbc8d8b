-- ===== src/Executor/Calls.antt =====
-- executor.py: which writes reach an adapter, and that a stopped job sends none.
use ha_device_links.Prelude.{
  Text, ℕ, zero, suc, List, [], ◌∷◌, Option, some, none, Bool, true, false, ◌≡◌, inl, inr,
  Bool-cases, All, All-append, ◌==◌, list_eq, nat_eq,
}
use ha_device_links.Models.{item_link}
use ha_device_links.Backends.{LinkResult, LinkResultStatus, status_eq}
use ha_device_links.Executor.Types.{Job, Write, Stop, set_op, not_attempted}
use ha_device_links.Executor.Device.{
  Phase, waiting, calling, sleeping, verifying, finished, Task, Move, Event, begin, answer, wake,
  read, abort, call_result, next_write, write_from, after_last, with_outcome, settled, enter_flight,
  after_result, pause_with, after_pause, verify, leave_flight, act,
}
use ha_device_links.Executor.Run.{
  World, get_task, set_phase, stop, Reach, delivered, halted, here, next,
}
use ha_device_links.Executor.Progress.{deliver-IsMove}

module _ (P : Write → Type 0) where
  abbrev pub InPhase : Phase → Type 0
  InPhase (calling w k ws) = P w × All P ws
  InPhase (sleeping w r k ws) = P w × All P ws
  InPhase _ = Unit

  abbrev InMove : Move → Type 0
  InMove m = InPhase m.phase × All P m.calls

  abbrev pub InTask : Task → Type 0
  InTask t = All P t.writes × InPhase t.phase

  write_from-InMove :
      (stop : Option Stop) (device : Text) (attempted : Bool) (ws : List Write) (j : Job)
      → All P ws
      → InMove (write_from stop device attempted ws j)
  unfolding write_from after_last
  write_from-InMove stop device true [] j h = (tt, tt)
  write_from-InMove stop device false [] j h = (tt, tt)
  write_from-InMove none device attempted (w ∷ ws) j h = (h, (h.0, tt))
  write_from-InMove (some s) device attempted (w ∷ ws) j h =
      write_from-InMove (some s) device attempted ws
        (set_op j w.op (with_outcome (not_attempted s))) h.1

  next_write-InMove :
      (device : Text) (attempted : Bool) (ws : List Write) (j : Job)
      → All P ws
      → InMove (next_write device attempted ws j)
  unfolding next_write
  next_write-InMove device attempted ws j h = write_from-InMove j.stop device attempted ws j h

  after_result-InMove :
      (device : Text) (w : Write) (r : LinkResult) (k : ℕ) (ws : List Write) (j : Job)
      → P w × All P ws
      → InMove (after_result device w r k ws j)
  unfolding after_result
  after_result-InMove device w r zero ws j h =
      next_write-InMove device true ws (set_op j w.op (settled r)) h.1
  after_result-InMove device w r (suc k) ws j h =
      elim (Bool-cases (r.status == LinkResultStatus.failed)) [
        | inl failed ↦ rw failed (h, tt)
        | inr done ↦ rw done (next_write-InMove device true ws (set_op j w.op (settled r)) h.1)
      ]

  pause_with-InMove :
      (stop : Option Stop) (device : Text) (w : Write) (r : LinkResult) (k : ℕ) (ws : List Write)
      (j : Job)
      → P w × All P ws
      → InMove (pause_with stop device w r k ws j)
  unfolding pause_with
  pause_with-InMove none device w r k ws j h = (h, (h.0, tt))
  pause_with-InMove (some s) device w r k ws j h =
      next_write-InMove device true ws (set_op j w.op (settled r)) h.1

  act-InMove :
      (seconds : Text) (t : Task) (j : Job) (e : Event) (p : Phase) (m : Move)
      → All P t.writes
      → InPhase p
      → act seconds t j e p ≡ some m
      → InMove m
  unfolding act after_pause
  act-InMove seconds t j begin waiting m h i q =
      let e : next_write t.device false t.writes (enter_flight j t.device) ≡ m = (cc q) in
      rw (← e) (next_write-InMove t.device false t.writes (enter_flight j t.device) h)
  act-InMove seconds t j (answer a) (calling w k ws) m h i q =
      let e : after_result t.device w (call_result seconds (item_link w.link) a) k ws j ≡ m =
        (cc q) in
      rw (← e) (after_result-InMove t.device w (call_result seconds (item_link w.link) a) k ws j i)
  act-InMove seconds t j wake (sleeping w r k ws) m h i q =
      let e : pause_with j.stop t.device w r k ws j ≡ m = (cc q) in
      rw (← e) (pause_with-InMove j.stop t.device w r k ws j i)
  act-InMove seconds t j (read d now) verifying m h i q =
      let e : record {
        job = leave_flight (verify d now t.writes j) t.device;
        phase = finished;
        calls = [];
      }
          ≡ m =
        (cc q) in
      rw (← e) (tt, tt)
  act-InMove seconds t j abort finished m h i q = cc q
  act-InMove seconds t j abort _ m h i q =
      let e : record { job = leave_flight j t.device; phase = finished; calls = [] } ≡ m = (cc q) in
      rw (← e) (tt, tt)
  act-InMove seconds t j _ _ m h i q = cc q

  get_task-All :
      (ts : List Task) (i : ℕ) (t : Task) → All InTask ts → get_task ts i ≡ some t → InTask t
  get_task-All [] i t h e = cc e
  get_task-All (u ∷ ts) zero t h e = let q : u ≡ t = (cc e) in rw (← q) h.0
  get_task-All (u ∷ ts) (suc i) t h e = get_task-All ts i t h.1 e

  set_phase-All :
      (ts : List Task) (i : ℕ) (p : Phase)
      → All InTask ts
      → InPhase p
      → All InTask (set_phase ts i p)
  unfolding set_phase
  set_phase-All [] i p h k = tt
  set_phase-All (u ∷ ts) zero p h k = ((h.0.0, k), h.1)
  set_phase-All (u ∷ ts) (suc i) p h k = (h.0, set_phase-All ts i p h.1 k)

  abbrev pub InWorld : World → Type 0
  InWorld s = All InTask s.tasks × All P s.calls

  stop-InWorld : (why : Stop) (s : World) → InWorld s → InWorld (stop why s)
  unfolding stop
  stop-InWorld why s h = h

  -- What holds of the devices' writes holds of every write that is sent.
  pub Reach-InWorld :
      {limit : ℕ} {seconds : Text} {s t : World} → Reach limit seconds s t → InWorld s → InWorld t
  Reach-InWorld here h = h
  Reach-InWorld {limit} {seconds} (next {t} {u} r (delivered i e does)) h =
      let (a, b) = Reach-InWorld r h in
      let (k, m, found, acts, _, after) = deliver-IsMove limit seconds t u i e does in
      let (x, y) = get_task-All t.tasks i k a found in
      let (p, q) = act-InMove seconds k t.job e k.phase m x y acts in
      rw after (set_phase-All t.tasks i m.phase a p, All-append P t.calls m.calls b q)
  Reach-InWorld (next {t} {u} r (halted why e)) h =
      let k = Reach-InWorld r h in rw e (stop-InWorld why t k)
