-- ===== src/Hybrid/Indications.antt =====
-- hybrid.py: the indication on a button, from the wish to the write. Times are in milliseconds.
use ha_device_links.Prelude.{
  ℕ, zero, suc, ◌+◌, ◌-◌, List, [], ◌∷◌, ◌++◌, Option, some, none, Bool, true, false, leb, ◌==◌, Eq,
  Discrete-Eq, option_eq, nat_eq, if◌then◌else◌,
}

unfoldable pub bool_discrete : Discrete Bool
bool_discrete = hlevel

instance abbrev pub bool_eq : Eq Bool
bool_eq = Discrete-Eq bool_discrete

-- `INDICATION_MIN_INTERVAL_SECONDS`
abbrev pub min_interval : ℕ
min_interval = 1000

-- Of `_Running`, what an indication uses; the timer is the time that it is due at.
pub record Running : Type 0 where
  pub wanted : Option Bool
  pub written : Option Bool
  pub written_at : Option ℕ
  pub timer : Option ℕ

-- A leg; what `_original` has of it; the clock; the tasks of `_async_write` that have not ended, in
-- their order, which the lock keeps, and whether the first of them has called
-- `async_write_indication`; when each task was created, and when each of these calls was made, the
-- latest first. That a leg ends, and the write by which `_retire` restores the original value, are
-- not here.
pub record Lamp : Type 0 where
  pub running : Running
  pub original : Option Bool
  pub now : ℕ
  pub under_way : List Bool
  pub is_sent : Bool
  pub scheduled : List ℕ
  pub sends : List ℕ

unfoldable pub write_wanted : Lamp → Option Bool → Lamp
write_wanted s none = s
write_wanted s (some lit) = if some lit == s.running.written then s else record s {
  running = record s.running { written_at = some s.now };
  under_way = s.under_way ++ (lit ∷ []);
  scheduled = s.now ∷ s.scheduled;
}

-- `_write_indication_now`
unfoldable pub write_indication_now : Lamp → Lamp
unfolding write_wanted
write_indication_now s = write_wanted s s.running.wanted

-- What is left of the interval since the last write.
abbrev pub wait_after : ℕ → Option ℕ → ℕ
wait_after now none = 0
wait_after now (some at) = min_interval - (now - at)

unfoldable pub write_after : Lamp → ℕ → Lamp
unfolding write_indication_now
write_after s zero = write_indication_now s
write_after s (suc n) = record s { running = record s.running { timer = some (s.now + suc n) } }

unfoldable pub write_when_due : Lamp → Option ℕ → Lamp
unfolding write_after
write_when_due s (some due) = s
write_when_due s none = write_after s (wait_after s.now s.running.written_at)

-- `_want_indication`
unfoldable pub want_indication : Bool → Lamp → Lamp
unfolding write_when_due
want_indication lit s =
    if s.running.wanted == some lit
    then s
    else write_when_due (record s { running = record s.running { wanted = some lit } })
        s.running.timer

-- `_later`, which Home Assistant calls when the timer is due, or after.
unfoldable pub later_at : Lamp → Option ℕ → Lamp
unfolding write_indication_now
later_at s none = s
later_at s (some due) =
    if leb due s.now
    then write_indication_now (record s { running = record s.running { timer = none } })
    else s

-- What `_original` has after a read, which is made only as long as it has nothing.
abbrev pub original_after : Option Bool → Option Bool → Option Bool
original_after (some lit) before = some lit
original_after none before = before

-- In `_async_write`, the first task that holds the lock calls `async_write_indication`, after its read
-- of the original value.
unfoldable pub send_write : Option Bool → Lamp → List Bool → Lamp
send_write before s [] = s
send_write before s (lit ∷ rest) = if s.is_sent then s else record s {
  original = original_after s.original before;
  is_sent = true;
  sends = s.now ∷ s.sends;
}

-- The end of `_async_write` after its call: the device took the value, or it did not.
unfoldable pub end_write : Bool → Lamp → List Bool → Lamp
end_write took s [] = s
end_write took s (lit ∷ rest) =
    if s.is_sent
    then record s {
      running = record s.running { written = if took then some lit else s.running.written };
      under_way = rest;
      is_sent = false;
    }
    else s

-- Its end before that: the read failed, or took too long.
unfoldable pub drop_write : Lamp → List Bool → Lamp
drop_write s [] = s
drop_write s (lit ∷ rest) = if s.is_sent then s else record s { under_way = rest }

-- `_rewatch`, when the entities of the target have changed
unfoldable pub stop_watching : Lamp → Lamp
stop_watching s = record s {
  running = record s.running { wanted = none; written = none; timer = none };
}

pub data LampEvent : Type 0 where
  pass : (milliseconds : ℕ) → LampEvent
  want : (lit : Bool) → LampEvent
  later : LampEvent
  sending : (before : Option Bool) → LampEvent
  written : (took : Bool) → LampEvent
  dropped : LampEvent
  rewatch : LampEvent

unfoldable pub light : Lamp → LampEvent → Lamp
unfolding want_indication later_at send_write end_write drop_write stop_watching
light s (pass n) = record s { now = s.now + n }
light s (want lit) = want_indication lit s
light s later = later_at s s.running.timer
light s (sending before) = send_write before s s.under_way
light s dropped = drop_write s s.under_way
light s (written took) = end_write took s s.under_way
light s rewatch = stop_watching s

unfoldable pub light_all : Lamp → List LampEvent → Lamp
unfolding light
light_all s [] = s
light_all s (e ∷ es) = light_all (light s e) es

-- A leg that has just been started
abbrev pub fresh_lamp : ℕ → Lamp
fresh_lamp now = record {
  running = record { wanted = none; written = none; written_at = none; timer = none };
  original = none;
  now = now;
  under_way = [];
  is_sent = false;
  scheduled = [];
  sends = [];
}
