-- ===== src/Hybrid/Paced.antt =====
-- hybrid.py: times that are an interval apart, and a leg that keeps them so.
use ha_device_links.Prelude.{
  ℕ, ◌+◌, ◌≤◌, List, [], ◌∷◌, Option, some, none, Bool, ◌*◌, All, length, if◌then◌else◌, ◌≡◌, arith,
  option_eq,
}
use ha_device_links.Hybrid.Indications.{bool_eq, min_interval, Lamp, wait_after}

-- The latest write, if there is one, was started the interval before a time.
abbrev pub IsClear : List ℕ → ℕ → Type 0
IsClear [] t = Unit
IsClear (a ∷ scheduled) t = a + min_interval ≤ t

-- Between two writes there is the interval.
abbrev pub IsSpaced : List ℕ → Type 0
IsSpaced [] = Unit
IsSpaced (a ∷ scheduled) = IsClear scheduled a × IsSpaced scheduled

abbrev pub IsPast : List ℕ → ℕ → Type 0
IsPast [] t = Unit
IsPast (a ∷ scheduled) t = a ≤ t

abbrev pub latest : List ℕ → Option ℕ
latest [] = none
latest (a ∷ scheduled) = some a

abbrev pub IsDue : List ℕ → Option ℕ → Type 0
IsDue scheduled none = Unit
IsDue scheduled (some due) = IsClear scheduled due

abbrev pub sent_count : Bool → ℕ
sent_count sent = if sent then 1 else 0

-- The calls and the tasks that have not made theirs are no more than the tasks that were created; and
-- a task that has made its call is there.
abbrev pub IsQueue : Lamp → Type 0
IsQueue s =
    (length s.sends + length s.under_way ≤ length s.scheduled + sent_count s.is_sent)
    × (sent_count s.is_sent ≤ length s.under_way)

abbrev pub IsSince : ℕ → List ℕ → Type 0
IsSince start scheduled = All (λ a. start ≤ a) scheduled

-- A leg that was started at a time.
abbrev pub IsPaced : ℕ → Lamp → Type 0
IsPaced start s =
    IsSpaced s.scheduled
    × (s.running.written_at ≡ latest s.scheduled)
    × IsDue s.scheduled s.running.timer
    × IsPast s.scheduled s.now
    × IsQueue s
    × (start ≤ s.now)
    × IsSince start s.scheduled

pub IsPast-later : (scheduled : List ℕ) (t u : ℕ) → t ≤ u → IsPast scheduled t → IsPast scheduled u
IsPast-later [] t u h k = tt
IsPast-later (a ∷ scheduled) t u h k = omega arith

pub IsClear-later :
    (scheduled : List ℕ) (t u : ℕ) → t ≤ u → IsClear scheduled t → IsClear scheduled u
IsClear-later [] t u h k = tt
IsClear-later (a ∷ scheduled) t u h k = omega arith

-- With no time left to wait, and with some left.
pub now-IsClear :
    (scheduled : List ℕ) (now : ℕ)
    → IsPast scheduled now
    → wait_after now (latest scheduled) ≡ 0
    → IsClear scheduled now
now-IsClear [] now h e = tt
now-IsClear (a ∷ scheduled) now h e = omega arith

pub then-IsClear :
    (scheduled : List ℕ) (now n : ℕ)
    → IsPast scheduled now
    → wait_after now (latest scheduled) ≡ n
    → IsClear scheduled (now + n)
then-IsClear [] now n h e = tt
then-IsClear (a ∷ scheduled) now n h e = omega arith

-- So many that are a second apart fit into the time from a start to a time.
pub spaced-length :
    (start now : ℕ) (scheduled : List ℕ)
    → start ≤ now
    → IsSpaced scheduled
    → IsPast scheduled now
    → IsSince start scheduled
    → min_interval * length scheduled + start ≤ now + min_interval
spaced-length start now [] h s p i = omega arith
spaced-length start now (a ∷ []) h s p i = omega (arith, i.0)
spaced-length start now (a ∷ b ∷ scheduled) h s p i =
    let earlier = spaced-length start b (b ∷ scheduled) (i.1.0) s.1 (omega arith) i.1 in
    omega (arith, earlier, s.0)
