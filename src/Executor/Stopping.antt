-- ===== src/Executor/Stopping.antt =====
-- executor.py `_stop`: the first request stands, and nothing is sent after it.
use ha_device_links.Prelude.{
  subst, ◌∙◌, Text, ℕ, zero, suc, List, [], ◌∷◌, append-nil, Option, some, Bool, true, false, ◌≡◌,
  refl, sym, inl, inr, Bool-cases, ◌==◌,
}
use ha_device_links.Models.{item_link}
use ha_device_links.Backends.{LinkResult, LinkResultStatus, ObservedDevice, status_eq}
use ha_device_links.Executor.Types.{Job, Write, Stop, set_op, not_attempted}
use ha_device_links.Executor.Device.{
  Phase, waiting, calling, sleeping, verifying, finished, Task, Move, Event, begin, answer, wake,
  read, abort, call_result, next_write, write_from, after_last, with_outcome, settled, enter_flight,
  after_result, pause_with, after_pause, verify, verify_each, verified, leave_flight, act,
}
use ha_device_links.Executor.Run.{World, stop, first_stop, Reach, delivered, halted, here, next}
use ha_device_links.Executor.Progress.{deliver-IsMove}

-- A move of a stopped job: it stays stopped, and nothing is sent.
abbrev IsSilent : Stop → Move → Type 0
IsSilent x m = (m.job.stop ≡ some x) × (m.calls ≡ [])

write_from-IsSilent :
    (x : Stop) (device : Text) (attempted : Bool) (ws : List Write) (j : Job)
    → j.stop ≡ some x
    → IsSilent x (write_from (some x) device attempted ws j)
unfolding write_from after_last
write_from-IsSilent x device true [] j h = (h, refl)
write_from-IsSilent x device false [] j h = (h, refl)
write_from-IsSilent x device attempted (w ∷ ws) j h =
    write_from-IsSilent x device attempted ws (set_op j w.op (with_outcome (not_attempted x))) h

next_write-IsSilent :
    (x : Stop) (device : Text) (attempted : Bool) (ws : List Write) (j : Job)
    → j.stop ≡ some x
    → IsSilent x (next_write device attempted ws j)
unfolding next_write
next_write-IsSilent x device attempted ws j h =
    subst (λ o. IsSilent x (write_from o device attempted ws j)) (sym h)
      (write_from-IsSilent x device attempted ws j h)

after_result-IsSilent :
    (x : Stop) (device : Text) (w : Write) (r : LinkResult) (k : ℕ) (ws : List Write) (j : Job)
    → j.stop ≡ some x
    → IsSilent x (after_result device w r k ws j)
unfolding after_result
after_result-IsSilent x device w r zero ws j h =
    next_write-IsSilent x device true ws (set_op j w.op (settled r)) h
after_result-IsSilent x device w r (suc k) ws j h =
    elim (Bool-cases (r.status == LinkResultStatus.failed)) [
      | inl failed ↦ rw failed (h, refl)
      | inr done ↦ rw done (next_write-IsSilent x device true ws (set_op j w.op (settled r)) h)
    ]

after_pause-IsSilent :
    (x : Stop) (device : Text) (w : Write) (r : LinkResult) (k : ℕ) (ws : List Write) (j : Job)
    → j.stop ≡ some x
    → IsSilent x (after_pause device w r k ws j)
unfolding after_pause pause_with
after_pause-IsSilent x device w r k ws j h =
    subst (λ o. IsSilent x (pause_with o device w r k ws j)) (sym h)
      (next_write-IsSilent x device true ws (set_op j w.op (settled r)) h)

stop-verify :
    (d : Option ObservedDevice) (now : Text) (ws : List Write) (j : Job)
    → (verify_each d now ws j).stop ≡ j.stop
unfolding verify_each
stop-verify d now [] j = refl
stop-verify d now (w ∷ ws) j = stop-verify d now ws (set_op j w.op (verified d now w))

act-IsSilent :
    (x : Stop) (seconds : Text) (t : Task) (j : Job) (e : Event) (p : Phase) (m : Move)
    → j.stop ≡ some x
    → act seconds t j e p ≡ some m
    → IsSilent x m
unfolding act verify
act-IsSilent x seconds t j begin waiting m h q =
    let e : next_write t.device false t.writes (enter_flight j t.device) ≡ m = (cc q) in
    rw (← e) (next_write-IsSilent x t.device false t.writes (enter_flight j t.device) h)
act-IsSilent x seconds t j (answer a) (calling w k ws) m h q =
    let e : after_result t.device w (call_result seconds (item_link w.link) a) k ws j ≡ m =
      (cc q) in
    rw (← e)
      (after_result-IsSilent x t.device w (call_result seconds (item_link w.link) a) k ws j h)
act-IsSilent x seconds t j wake (sleeping w r k ws) m h q =
    let e : after_pause t.device w r k ws j ≡ m = (cc q) in
    rw (← e) (after_pause-IsSilent x t.device w r k ws j h)
act-IsSilent x seconds t j (read d now) verifying m h q =
    let e : record {
      job = leave_flight (verify d now t.writes j) t.device;
      phase = finished;
      calls = [];
    }
        ≡ m =
      (cc q) in
    rw (← e) (cc (stop-verify d now _ j, h), refl)
act-IsSilent x seconds t j abort finished m h q = cc q
act-IsSilent x seconds t j abort _ m h q =
    let e : record { job = leave_flight j t.device; phase = finished; calls = [] } ≡ m = (cc q) in
    rw (← e) (h, refl)
act-IsSilent x seconds t j _ _ m h q = cc q

stop-stop :
    (x why : Stop) (s : World)
    → s.job.stop ≡ some x
    → ((stop why s).job.stop ≡ some x) × ((stop why s).calls ≡ s.calls)
unfolding stop
stop-stop x why s h = (subst (λ o. some (first_stop o why) ≡ some x) (sym h) refl, refl)

-- Once a job is asked to stop, the first request stands, and whatever happens then, no further write
-- is sent to an adapter, not even one that is tried again.
pub Reach-stop :
    {limit : ℕ} {seconds : Text} {s t : World} (x : Stop)
    → Reach limit seconds s t
    → s.job.stop ≡ some x
    → (t.job.stop ≡ some x) × (t.calls ≡ s.calls)
Reach-stop x here h = (h, refl)
Reach-stop {limit} {seconds} x (next {t} {u} r (delivered i e does)) h =
    let (a, b) = Reach-stop x r h in
    let (k, m, found, acts, _, after) = deliver-IsMove limit seconds t u i e does in
    let (p, q) = act-IsSilent x seconds k t.job e k.phase m a acts in
    rw after (p, rw q (append-nil t.calls ∙ b))
Reach-stop x (next {t} {u} r (halted why e)) h =
    let (a, b) = Reach-stop x r h in let (c, d) = stop-stop x why t a in rw e (c, d ∙ b)
