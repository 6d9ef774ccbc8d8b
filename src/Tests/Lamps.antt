-- ===== src/Tests/Lamps.antt =====
-- The indication of a lamp that goes on and off, at slow writes.
use ha_device_links.Prelude.{
  ◌+◌, ◌*◌, ◌≤◌, length, List, [], ◌∷◌, ◌≡◌, refl, some, none, true, false, option_beq,
}
use ha_device_links.Hybrid.{
  LampEvent, pass, want, sending, written, min_interval, fresh_lamp, light_all, light,
  want_indication, write_when_due, write_after, write_indication_now, write_wanted, send_write,
  end_write, bool_discrete,
}
use ha_device_links.Hybrid.Paced.{IsSpaced}
use ha_device_links.Hybrid.Spaced.{light_all-IsSpaced}

-- Off; then on, by a write that takes two seconds and is not done when the lamp is off again.
abbrev slow : List LampEvent
slow =
    want false
    ∷ sending none
    ∷ written true
    ∷ pass 2000
    ∷ want true
    ∷ sending none
    ∷ pass 2000
    ∷ want false
    ∷ written true
    ∷ []

-- The button shows that the lamp is on, which it is not, and nothing is left to be done.
left_on :
    (light_all (fresh_lamp 0) slow).running
    ≡ record { wanted = some false; written = some true; written_at = some 2000; timer = none }
unfolding light_all light want_indication write_when_due write_after write_indication_now
    write_wanted send_write end_write option_beq bool_discrete
left_on = refl

left_idle : (light_all (fresh_lamp 0) slow).under_way ≡ []
unfolding light_all light want_indication write_when_due write_after write_indication_now
    write_wanted send_write end_write option_beq bool_discrete
left_idle = refl

-- On, by a call that takes two and a half seconds; off and on again while it lasts.
abbrev stalled : List LampEvent
stalled =
    want true
    ∷ sending none
    ∷ pass 1000
    ∷ want false
    ∷ pass 1000
    ∷ want true
    ∷ pass 500
    ∷ written false
    ∷ sending none
    ∷ written true
    ∷ sending none
    ∷ []

-- The two tasks that waited for the lock make their calls at one time.
sent_at_once : (light_all (fresh_lamp 0) stalled).sends ≡ 2500 ∷ 2500 ∷ 0 ∷ []
unfolding light_all light want_indication write_when_due write_after write_indication_now
    write_wanted send_write end_write option_beq bool_discrete
sent_at_once = refl

light_all-IsSpaced_example :
    IsSpaced (light_all (fresh_lamp 0) stalled).scheduled
    × (length (light_all (fresh_lamp 0) stalled).sends
        ≤ length (light_all (fresh_lamp 0) stalled).scheduled)
    × (min_interval * length (light_all (fresh_lamp 0) stalled).sends + 0
        ≤ (light_all (fresh_lamp 0) stalled).now + min_interval)
light_all-IsSpaced_example = light_all-IsSpaced 0 stalled
