-- ===== src/Coordinator/Holds.antt =====
-- coordinator.py: the devices that wait to be read again, and the holds that keep them waiting.
use ha_device_links.Prelude.{
  Text, Dict, ℕ, zero, suc, ◌+◌, ◌-◌, List, [], ◌∷◌, Option, some, none, Bool, true, false, not,
  any, keep, contains, get, has, put, delete, sort, list_eq, nat_eq, list_ord, nat_ord,
  if◌then◌else◌,
}
use ha_device_links.Coordinator.State.{Coordinator}

-- A `Counter`: a key that is missing counts 0.
abbrev pub or_zero : Option ℕ → ℕ
or_zero none = 0
or_zero (some n) = n

unfoldable pub times : Dict Text ℕ → Text → ℕ
times held i = or_zero (get held i)

-- `self._held.update(held)`
unfoldable pub hold_all : Dict Text ℕ → List Text → Dict Text ℕ
unfolding times
hold_all held [] = held
hold_all held (i ∷ is) = hold_all (put held i (times held i + 1)) is

unfoldable pub release_one : Dict Text ℕ → Text → ℕ → Dict Text ℕ
release_one held i zero = delete held i
release_one held i (suc n) = put held i (suc n)

-- The loop of `_release`
unfoldable pub release_all : Dict Text ℕ → List Text → Dict Text ℕ
unfolding release_one times
release_all held [] = held
release_all held (i ∷ is) = release_all (release_one held i (times held i - 1)) is

abbrev pub is_due : Coordinator → Bool
is_due c = any (λ i. not (has c.held i)) c.pending

-- `_arm_flush`
unfoldable pub arm_flush : Coordinator → Coordinator
arm_flush c = if c.flush_armed then c else if is_due c then record c { flush_armed = true } else c

-- `_device_changed`
unfoldable pub device_changed : Text → Coordinator → Coordinator
unfolding arm_flush
device_changed i c =
    arm_flush (record c { pending = if contains c.pending i then c.pending else i ∷ c.pending })

-- `async_hold_refresh`, less the closure that it returns
unfoldable pub async_hold_refresh : List Text → Coordinator → Coordinator
unfolding hold_all
async_hold_refresh is c = record c { held = hold_all c.held is }

-- `_release`, the first time
unfoldable pub release : List Text → Coordinator → Coordinator
unfolding release_all arm_flush
release is c = arm_flush (record c { held = release_all c.held is })

-- The devices that `_flush_pending` reads, and what it leaves before it reads them.
unfoldable pub flushed : Coordinator → List Text
flushed c = sort (keep (λ i. not (has c.held i)) c.pending)

unfoldable pub start_flush : Coordinator → Coordinator
start_flush c = record c { flush_armed = false; pending = keep (λ i. has c.held i) c.pending }

-- `_cancel_flush`
unfoldable pub cancel_flush : Coordinator → Coordinator
cancel_flush c = record c { flush_armed = false; pending = [] }

-- A closure that `async_hold_refresh` returned, with its `released`.
pub record Hold : Type 0 where
  pub identities : List Text
  pub released : Bool

-- The coordinator and the closures that it handed out, the latest first.
pub record Board : Type 0 where
  pub coordinator : Coordinator
  pub holds : List Hold

pub data HoldEvent : Type 0 where
  hold : (identities : List Text) → HoldEvent
  let_go : (position : ℕ) → HoldEvent
  change : (identity : Text) → HoldEvent
  flush cancel : HoldEvent

abbrev pub get_hold : List Hold → ℕ → Option Hold
get_hold [] n = none
get_hold (h ∷ hs) zero = some h
get_hold (h ∷ hs) (suc n) = get_hold hs n

unfoldable pub mark_released : List Hold → ℕ → List Hold
mark_released [] n = []
mark_released (h ∷ hs) zero = record h { released = true } ∷ hs
mark_released (h ∷ hs) (suc n) = h ∷ mark_released hs n

-- A call of the closure at a position: only its first call does anything.
unfoldable pub call_release : Board → ℕ → Option Hold → Board
unfolding release mark_released
call_release b n none = b
call_release b n (some h) = if h.released then b else record {
  coordinator = release h.identities b.coordinator;
  holds = mark_released b.holds n;
}

unfoldable pub happen : Board → HoldEvent → Board
unfolding async_hold_refresh call_release device_changed start_flush cancel_flush
happen b (hold is) = record {
  coordinator = async_hold_refresh is b.coordinator;
  holds = record { identities = is; released = false } ∷ b.holds;
}
happen b (let_go n) = call_release b n (get_hold b.holds n)
happen b (change i) = record b { coordinator = device_changed i b.coordinator }
happen b flush =
    if b.coordinator.flush_armed then record b { coordinator = start_flush b.coordinator } else b
happen b cancel = record b { coordinator = cancel_flush b.coordinator }

-- What happens on the event loop, one after the other.
unfoldable pub happen_all : Board → List HoldEvent → Board
unfolding happen
happen_all b [] = b
happen_all b (e ∷ es) = happen_all (happen b e) es
