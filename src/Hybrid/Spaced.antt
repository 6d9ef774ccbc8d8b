-- ===== src/Hybrid/Spaced.antt =====
-- hybrid.py: the writes of an indication keep the interval between them.
use ha_device_links.Prelude.{
  ℕ, zero, suc, ◌+◌, ◌≤◌, List, [], ◌∷◌, Option, some, none, Bool, leb, ◌*◌, length, length-append,
  ◌≡◌, refl, arith, if_intro, ◌==◌, option_eq,
}
use ha_device_links.Hybrid.Indications.{
  bool_eq, min_interval, Lamp, write_wanted, write_indication_now, wait_after, write_after,
  write_when_due, want_indication, later_at, end_write, LampEvent, pass, want, later, written,
  dropped, sending, rewatch, send_write, drop_write, stop_watching, light, light_all, fresh_lamp,
}
use ha_device_links.Hybrid.Paced.{
  IsClear, IsSpaced, IsQueue, IsPaced, IsClear-later, IsPast-later, now-IsClear, then-IsClear,
  spaced-length,
}

module _ (start : ℕ) where
  write_wanted-IsPaced :
      (s : Lamp) (o : Option Bool)
      → s.running.timer ≡ none
      → IsClear s.scheduled s.now
      → IsPaced start s
      → IsPaced start (write_wanted s o)
  unfolding write_wanted
  write_wanted-IsPaced s none idle c h = h
  write_wanted-IsPaced s (some lit) idle c h =
      if_intro (IsPaced start) (some lit == s.running.written) s _ (λ same. h)
        (λ other. (
          (c, h.0),
          refl,
          rw idle tt,
          omega arith,
          (
            omega (arith, h.4, length-append s.under_way (lit ∷ [])),
            omega (arith, h.4, length-append s.under_way (lit ∷ [])),
          ),
          h.5,
          (h.5, h.6),
        ))

  write_indication_now-IsPaced :
      (s : Lamp)
      → s.running.timer ≡ none
      → IsClear s.scheduled s.now
      → IsPaced start s
      → IsPaced start (write_indication_now s)
  unfolding write_indication_now
  write_indication_now-IsPaced s idle c h = write_wanted-IsPaced s s.running.wanted idle c h

  write_after-IsPaced :
      (s : Lamp) (n : ℕ)
      → s.running.timer ≡ none
      → wait_after s.now s.running.written_at ≡ n
      → IsPaced start s
      → IsPaced start (write_after s n)
  unfolding write_after
  write_after-IsPaced s zero idle e h =
      write_indication_now-IsPaced s idle (now-IsClear s.scheduled s.now h.3 (rw h.1 at e)) h
  write_after-IsPaced s (suc n) idle e h =
      (h.0, h.1, then-IsClear s.scheduled s.now (suc n) h.3 (rw h.1 at e), h.3, h.4, h.5, h.6)

  write_when_due-IsPaced :
      (s : Lamp) (o : Option ℕ)
      → s.running.timer ≡ o
      → IsPaced start s
      → IsPaced start (write_when_due s o)
  unfolding write_when_due
  write_when_due-IsPaced s (some due) e h = h
  write_when_due-IsPaced s none e h =
      write_after-IsPaced s (wait_after s.now s.running.written_at) e refl h

  later_at-IsPaced :
      (s : Lamp) (o : Option ℕ)
      → s.running.timer ≡ o
      → IsPaced start s
      → IsPaced start (later_at s o)
  unfolding later_at
  later_at-IsPaced s none e h = h
  later_at-IsPaced s (some due) e h =
      let clear : IsClear s.scheduled due = rw e at h.2 in
      if_intro (IsPaced start) (leb due s.now) _ s
        (λ come.
          write_indication_now-IsPaced (record s { running = record s.running { timer = none } })
            refl (IsClear-later s.scheduled due s.now (ground (arith, come)) clear)
            (h.0, h.1, tt, h.3, h.4, h.5, h.6))
        (λ early. h)

  -- The steps of the tasks change the queue only.
  send_write-IsPaced :
      (before : Option Bool) (s : Lamp) (bs : List Bool)
      → s.under_way ≡ bs
      → IsPaced start s
      → IsPaced start (send_write before s bs)
  unfolding send_write
  send_write-IsPaced before s [] e h = h
  send_write-IsPaced before s (lit ∷ rest) e h =
      let q : IsQueue s = h.4 in
      if_intro (IsPaced start) s.is_sent s _ (λ sent. h)
        (λ waits.
          let (few, _) = rw (e, waits) at q in
          (h.0, h.1, h.2, h.3, rw e (omega (arith, few), omega arith), h.5, h.6))

  end_write-IsPaced :
      (took : Bool) (s : Lamp) (bs : List Bool)
      → s.under_way ≡ bs
      → IsPaced start s
      → IsPaced start (end_write took s bs)
  unfolding end_write
  end_write-IsPaced took s [] e h = h
  end_write-IsPaced took s (lit ∷ rest) e h =
      let q : IsQueue s = h.4 in
      if_intro (IsPaced start) s.is_sent _ s
        (λ sent.
          let (few, _) = rw (e, sent) at q in
          (h.0, h.1, h.2, h.3, (omega (arith, few), omega arith), h.5, h.6))
        (λ waits. h)

  drop_write-IsPaced :
      (s : Lamp) (bs : List Bool)
      → s.under_way ≡ bs
      → IsPaced start s
      → IsPaced start (drop_write s bs)
  unfolding drop_write
  drop_write-IsPaced s [] e h = h
  drop_write-IsPaced s (lit ∷ rest) e h =
      let q : IsQueue s = h.4 in
      if_intro (IsPaced start) s.is_sent s _ (λ sent. h)
        (λ waits.
          let (few, _) = rw (e, waits) at q in
          (h.0, h.1, h.2, h.3, rw waits (omega (arith, few), omega arith), h.5, h.6))

  light-IsPaced : (s : Lamp) (e : LampEvent) → IsPaced start s → IsPaced start (light s e)
  unfolding light want_indication stop_watching
  light-IsPaced s (pass n) h = (
    h.0,
    h.1,
    h.2,
    IsPast-later s.scheduled s.now (s.now + n) (omega arith) h.3,
    h.4,
    omega (arith, h.5),
    h.6,
  )
  light-IsPaced s (want lit) h =
      if_intro (IsPaced start) (s.running.wanted == some lit) s _ (λ same. h)
        (λ other.
          write_when_due-IsPaced (record s { running = record s.running { wanted = some lit } })
            s.running.timer refl h)
  light-IsPaced s later h = later_at-IsPaced s s.running.timer refl h
  light-IsPaced s (sending before) h = send_write-IsPaced before s s.under_way refl h
  light-IsPaced s (written took) h = end_write-IsPaced took s s.under_way refl h
  light-IsPaced s dropped h = drop_write-IsPaced s s.under_way refl h
  light-IsPaced s rewatch h = (h.0, h.1, tt, h.3, h.4, h.5, h.6)

  light_all-IsPaced :
      (s : Lamp) (es : List LampEvent) → IsPaced start s → IsPaced start (light_all s es)
  unfolding light_all
  light_all-IsPaced s [] h = h
  light_all-IsPaced s (e ∷ es) h = light_all-IsPaced (light s e) es (light-IsPaced s e h)

-- However the wanted value changes, whenever the timer is served once it is due, and however long
-- the reads and the writes take and whether they fail: the tasks that write a leg's indication are
-- created no less than a second apart; the adapter is called to write no more often than tasks were
-- created; and so, since the leg was started, at most once for each second and once more. That
-- bounds how many calls there are, not the time between two of them.
pub light_all-IsSpaced :
    (now : ℕ) (es : List LampEvent)
    → IsSpaced (light_all (fresh_lamp now) es).scheduled
      × (length (light_all (fresh_lamp now) es).sends
          ≤ length (light_all (fresh_lamp now) es).scheduled)
      × (min_interval * length (light_all (fresh_lamp now) es).sends + now
          ≤ (light_all (fresh_lamp now) es).now + min_interval)
light_all-IsSpaced now es =
    let s = light_all (fresh_lamp now) es in
    let h =
      light_all-IsPaced now (fresh_lamp now) es
        (tt, refl, tt, tt, (omega arith, omega arith), omega arith, tt) in
    let fits = spaced-length now s.now s.scheduled h.5 h.0 h.3 h.6 in
    let (a, b) = h.4 in
    let few : length s.sends ≤ length s.scheduled = omega (arith, a, b) in
    (h.0, few, omega (arith, fits, few))
