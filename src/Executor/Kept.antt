-- ===== src/Executor/Kept.antt =====
-- executor.py: no event changes which items the operations of a job are for.
use ha_device_links.Prelude.{
  keep, Text, ℕ, zero, suc, List, [], ◌∷◌, map, Option, some, none, Bool, true, false, ◌≡◌, refl,
  ◌∙◌, inl, inr, Bool-cases, ◌==◌,
}
use ha_device_links.Models.{item_link, PlanItem}
use ha_device_links.Backends.{LinkResult, LinkResultStatus, ObservedDevice, status_eq}
use ha_device_links.Executor.Types.{Op, Job, Write, Stop, update_op, set_op, not_attempted}
use ha_device_links.Executor.Device.{
  Phase, waiting, calling, sleeping, verifying, finished, Task, Move, Event, begin, answer, wake,
  read, abort, call_result, next_write, write_from, after_last, with_outcome, settled, enter_flight,
  after_result, pause_with, after_pause, is_pending, verify, verify_each, verified, verified_as,
  leave_flight, act,
}
use ha_device_links.Executor.Run.{World, stop, Reach, delivered, halted, here, next}
use ha_device_links.Executor.Progress.{deliver-IsMove}

abbrev pub items_of : List Op → List PlanItem
items_of ops = map (λ (op : Op). op.item) ops

pub items_of-update_op :
    (ops : List Op) (i : ℕ) (f : Op → Op)
    → ((op : Op) → (f op).item ≡ op.item)
    → items_of (update_op ops i f) ≡ items_of ops
unfolding update_op
items_of-update_op [] i f h = refl
items_of-update_op (op ∷ ops) zero f h = rw (h op) refl
items_of-update_op (op ∷ ops) (suc i) f h = rw (items_of-update_op ops i f h) refl

item-verified_as :
    (differs deep : Bool) (skipped : Option Text) (now : Text) (w : Write) (op : Op)
    → (verified_as differs deep skipped now w op).item ≡ op.item
unfolding verified_as
item-verified_as true deep skipped now w op = refl
item-verified_as false true skipped now w op = refl
item-verified_as false false skipped now w op = refl

item-verified :
    (d : Option ObservedDevice) (now : Text) (w : Write) (op : Op)
    → (verified d now w op).item ≡ op.item
unfolding verified
item-verified none now w op = refl
item-verified (some d) now w op = item-verified_as _ _ d.deep_verify_skipped_reason now w op

items_of-verify_each :
    (d : Option ObservedDevice) (now : Text) (ws : List Write) (j : Job)
    → items_of (verify_each d now ws j).ops ≡ items_of j.ops
unfolding verify_each
items_of-verify_each d now [] j = refl
items_of-verify_each d now (w ∷ ws) j =
    items_of-verify_each d now ws (set_op j w.op (verified d now w))
    ∙ items_of-update_op j.ops w.op (verified d now w) (item-verified d now w)

-- A move keeps the items of the operations.
abbrev Keeps : Job → Move → Type 0
Keeps j m = items_of m.job.ops ≡ items_of j.ops

write_from-Keeps :
    (stop : Option Stop) (device : Text) (attempted : Bool) (ws : List Write) (j : Job)
    → Keeps j (write_from stop device attempted ws j)
unfolding write_from after_last
write_from-Keeps stop device true [] j = refl
write_from-Keeps stop device false [] j = refl
write_from-Keeps none device attempted (w ∷ ws) j = items_of-update_op j.ops w.op _ (λ op. refl)
write_from-Keeps (some s) device attempted (w ∷ ws) j =
    write_from-Keeps (some s) device attempted ws (set_op j w.op (with_outcome (not_attempted s)))
    ∙ items_of-update_op j.ops w.op (with_outcome (not_attempted s)) (λ op. refl)

settle-Keeps :
    (device : Text) (w : Write) (r : LinkResult) (ws : List Write) (j : Job)
    → Keeps j (next_write device true ws (set_op j w.op (settled r)))
unfolding next_write
settle-Keeps device w r ws j =
    write_from-Keeps j.stop device true ws (set_op j w.op (settled r))
    ∙ items_of-update_op j.ops w.op (settled r) (λ op. refl)

after_result-Keeps :
    (device : Text) (w : Write) (r : LinkResult) (k : ℕ) (ws : List Write) (j : Job)
    → Keeps j (after_result device w r k ws j)
unfolding after_result
after_result-Keeps device w r zero ws j = settle-Keeps device w r ws j
after_result-Keeps device w r (suc k) ws j =
    elim (Bool-cases (r.status == LinkResultStatus.failed)) [
      | inl failed ↦ rw failed refl
      | inr done ↦ rw done (settle-Keeps device w r ws j)
    ]

pause_with-Keeps :
    (stop : Option Stop) (device : Text) (w : Write) (r : LinkResult) (k : ℕ) (ws : List Write)
    (j : Job)
    → Keeps j (pause_with stop device w r k ws j)
unfolding pause_with
pause_with-Keeps none device w r k ws j = items_of-update_op j.ops w.op _ (λ op. refl)
pause_with-Keeps (some s) device w r k ws j = settle-Keeps device w r ws j

act-Keeps :
    (seconds : Text) (t : Task) (j : Job) (e : Event) (p : Phase) (m : Move)
    → act seconds t j e p ≡ some m
    → Keeps j m
unfolding act verify after_pause next_write
act-Keeps seconds t j begin waiting m q =
    let e : next_write t.device false t.writes (enter_flight j t.device) ≡ m = (cc q) in
    rw (← e) (write_from-Keeps j.stop t.device false t.writes (enter_flight j t.device))
act-Keeps seconds t j (answer a) (calling w k ws) m q =
    let e : after_result t.device w (call_result seconds (item_link w.link) a) k ws j ≡ m =
      (cc q) in
    rw (← e) (after_result-Keeps t.device w (call_result seconds (item_link w.link) a) k ws j)
act-Keeps seconds t j wake (sleeping w r k ws) m q =
    let e : pause_with j.stop t.device w r k ws j ≡ m = (cc q) in
    rw (← e) (pause_with-Keeps j.stop t.device w r k ws j)
act-Keeps seconds t j (read d now) verifying m q =
    let e : record {
      job = leave_flight (verify d now t.writes j) t.device;
      phase = finished;
      calls = [];
    }
        ≡ m =
      (cc q) in
    rw (← e) (items_of-verify_each d now (keep (is_pending j.ops) t.writes) j)
act-Keeps seconds t j abort finished m q = cc q
act-Keeps seconds t j abort _ m q =
    let e : record { job = leave_flight j t.device; phase = finished; calls = [] } ≡ m = (cc q) in
    rw (← e) refl
act-Keeps seconds t j _ _ m q = cc q

items_of-stop : (why : Stop) (s : World) → items_of (stop why s).job.ops ≡ items_of s.job.ops
unfolding stop
items_of-stop why s = refl

pub items_of-Reach :
    {limit : ℕ} {seconds : Text} {s t : World}
    → Reach limit seconds s t
    → items_of t.job.ops ≡ items_of s.job.ops
items_of-Reach here = refl
items_of-Reach {limit} {seconds} (next {t} {u} r (delivered i e does)) =
    let (k, m, found, acts, _, after) = deliver-IsMove limit seconds t u i e does in
    rw after (act-Keeps seconds k t.job e k.phase m acts ∙ items_of-Reach r)
items_of-Reach (next {t} {u} r (halted why e)) = rw e (items_of-stop why t ∙ items_of-Reach r)
