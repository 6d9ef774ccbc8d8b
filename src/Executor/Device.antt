-- ===== src/Executor/Device.antt =====
-- executor.py: the work on one device, as the coroutine that it is. A phase is what the coroutine
-- waits for, and an event is what it is woken by.
use ha_device_links.Prelude.{
  Text, text, ℕ, zero, suc, ◌+◌, List, [], ◌∷◌, ◌++◌, map, Option, some, none, Bool, true, false,
  not, contains, keep, ◌==◌, list_eq, nat_eq, if◌then◌else◌,
}
use ha_device_links.Models.{Link, ObservedLink, fingerprint, item_link, add, op_eq}
use ha_device_links.Backends.{LinkResult, LinkResultStatus, ObservedDevice, status_eq}
use ha_device_links.Executor.Types.{
  Op, Job, Write, LinkOutcome, Stop, outcome_of, not_attempted, is_verifiable, get_op, set_op,
}
use ha_device_links.Executor.Refuse.{message, about}

-- How a call of an adapter ends.
pub data Answer : Type 0 where
  answered : LinkResult → Answer
  timed_out : Answer
  raised : (error : Text) → Answer

-- `_call`; `seconds` is the text of the timeout.
unfoldable pub call_result : Text → Link → Answer → LinkResult
call_result seconds l (answered r) = r
call_result seconds l timed_out = record {
  status = LinkResultStatus.failed;
  reason = some (message (text "operation_timeout") (about l ++ ((text "seconds", seconds) ∷ [])));
  raw_error = none;
}
call_result seconds l (raised error) = record {
  status = LinkResultStatus.failed;
  reason = some (message (text "link_write_raised") (about l));
  raw_error = some error;
}

-- What the coroutine of a device waits for: the semaphore, an answer or the end of a pause with the
-- number of retries that are left, or the read that verifies.
pub data Phase : Type 0 where
  waiting : Phase
  calling : (current : Write) (retries : ℕ) (rest : List Write) → Phase
  sleeping : (current : Write) (result : LinkResult) (retries : ℕ) (rest : List Write) → Phase
  verifying : Phase
  finished : Phase

pub record Task : Type 0 where
  pub device : Text
  pub writes : List Write
  pub phase : Phase

-- The job and the phase after an event, and the writes that were sent to the adapter.
pub record Move : Type 0 where
  pub job : Job
  pub phase : Phase
  pub calls : List Write

-- `len(RETRY_BACKOFF_SECONDS)`
abbrev pub max_retries : ℕ
max_retries = 2

abbrev pub leave_flight : Job → Text → Job
leave_flight j device = record j {
  devices_in_flight = keep (λ d. not (d == device)) j.devices_in_flight;
}

abbrev pub enter_flight : Job → Text → Job
enter_flight j device = record j {
  devices_in_flight =
      if contains j.devices_in_flight device
      then j.devices_in_flight
      else device ∷ j.devices_in_flight;
}

abbrev pub with_outcome : LinkOutcome → Op → Op
with_outcome o op = record op { outcome = some o }

-- The end of `_write_all`: the device is read again only if something was attempted.
unfoldable pub after_last : Text → Bool → Job → Move
after_last device true j = record { job = j; phase = verifying; calls = [] }
after_last device false j = record { job = leave_flight j device; phase = finished; calls = [] }

-- The loop of `_write_all` over the writes that are left, up to the next call. Nothing can set
-- `job.stop` before that.
unfoldable pub write_from : Option Stop → Text → Bool → List Write → Job → Move
unfolding after_last
write_from stop device attempted [] j = after_last device attempted j
write_from none device attempted (w ∷ ws) j = record {
  job = set_op j w.op (λ op. record op { attempts = 1 });
  phase = calling w max_retries ws;
  calls = w ∷ [];
}
write_from (some s) device attempted (w ∷ ws) j =
    write_from (some s) device attempted ws (set_op j w.op (with_outcome (not_attempted s)))

unfoldable pub next_write : Text → Bool → List Write → Job → Move
unfolding write_from
next_write device attempted ws j = write_from j.stop device attempted ws j

-- The end of `_write`
abbrev pub settled : LinkResult → Op → Op
settled r op = record op {
  outcome = some (outcome_of r.status);
  reason = r.reason;
  raw_error = r.raw_error;
}

abbrev pub settle : Text → Write → LinkResult → List Write → Job → Move
settle device w r rest j = next_write device true rest (set_op j w.op (settled r))

-- The loop of `_write` over the pauses, after a result: a failure with a retry left pauses first.
unfoldable pub after_result : Text → Write → LinkResult → ℕ → List Write → Job → Move
unfolding next_write
after_result device w r zero rest j = settle device w r rest j
after_result device w r (suc n) rest j =
    if r.status == LinkResultStatus.failed
    then record { job = j; phase = sleeping w r n rest; calls = [] }
    else settle device w r rest j

-- The loop of `_write` after a pause: a job that was stopped keeps the result that it has.
unfoldable pub pause_with : Option Stop → Text → Write → LinkResult → ℕ → List Write → Job → Move
unfolding next_write
pause_with (some s) device w r n rest j = settle device w r rest j
pause_with none device w r n rest j = record {
  job = set_op j w.op (λ op. record op { attempts = op.attempts + 1 });
  phase = calling w n rest;
  calls = w ∷ [];
}

unfoldable pub after_pause : Text → Write → LinkResult → ℕ → List Write → Job → Move
unfolding pause_with
after_pause device w r n rest j = pause_with j.stop device w r n rest j

abbrev pub why : Option Text → Text
why none = text "no_answer"
why (some []) = text "no_answer"
why (some (c ∷ s)) = c ∷ s

abbrev pub is_present : ObservedDevice → Write → Bool
is_present d w =
    contains (map (λ (o : ObservedLink). fingerprint o.link) d.links)
      (fingerprint (item_link w.link))

-- `a is not b` on booleans
abbrev pub differ : Bool → Bool → Bool
differ true b = not b
differ false b = b

-- What `_verify` makes of one operation, from whether the link is where it should not be, or is not
-- where it should be, and whether the read reached the device.
unfoldable pub verified_as : (differs deep : Bool) → Option Text → Text → Write → Op → Op
verified_as true deep skipped now w op = record op {
  outcome = some LinkOutcome.unverified;
  reason = some (
      message (if op.item.op == add then text "verify_missing" else text "verify_still_present")
        (about (item_link w.link)));
}
verified_as false false skipped now w op = record op {
  outcome = some LinkOutcome.unconfirmed;
  reason = some (
      message (text "verify_not_confirmed")
        (about (item_link w.link) ++ ((text "why", why skipped) ∷ [])));
}
verified_as false true skipped now w op = record op { verified_at = some now }

unfoldable pub verified : Option ObservedDevice → Text → Write → Op → Op
unfolding verified_as
verified none now w op = record op {
  outcome = some LinkOutcome.unconfirmed;
  reason = some (message (text "verify_unreadable") (about (item_link w.link)));
}
verified (some d) now w op =
    verified_as (differ (is_present d w) (op.item.op == add)) d.deep_verified
      d.deep_verify_skipped_reason now w op

abbrev pub is_pending : List Op → Write → Bool
is_pending ops w = elim (get_op ops w.op) [ none ↦ false | some op ↦ is_verifiable op.outcome ]

unfoldable pub verify_each : Option ObservedDevice → Text → List Write → Job → Job
unfolding verified
verify_each d now [] j = j
verify_each d now (w ∷ ws) j = verify_each d now ws (set_op j w.op (verified d now w))

-- `_verify`, with what the refresh gave
unfoldable pub verify : Option ObservedDevice → Text → List Write → Job → Job
unfolding verify_each
verify d now ws j = verify_each d now (keep (is_pending j.ops) ws) j

pub data Event : Type 0 where
  begin : Event
  answer : Answer → Event
  wake : Event
  read : (device : Option ObservedDevice) (now : Text) → Event
  abort : Event

-- One event in the life of a device's coroutine; `none` is an event that it does not wait for. An
-- `abort` is an exception that leaves it, `CancelledError` or one that a refresh raises.
unfoldable pub act : Text → Task → Job → Event → Phase → Option Move
unfolding next_write after_result after_pause verify call_result
act seconds t j begin waiting = some (next_write t.device false t.writes (enter_flight j t.device))
act seconds t j (answer a) (calling w n rest) =
    some (after_result t.device w (call_result seconds (item_link w.link) a) n rest j)
act seconds t j wake (sleeping w r n rest) = some (after_pause t.device w r n rest j)
act seconds t j (read d now) verifying =
    some (record {
      job = leave_flight (verify d now t.writes j) t.device;
      phase = finished;
      calls = [];
    })
act seconds t j abort finished = none
act seconds t j abort _ =
    some (record { job = leave_flight j t.device; phase = finished; calls = [] })
act seconds t j _ _ = none
