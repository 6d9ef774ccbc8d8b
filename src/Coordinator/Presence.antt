-- ===== src/Coordinator/Presence.antt =====
-- coordinator.py `_present`: which links the devices hold.
use ha_device_links.Prelude.{
  Text, Dict, [], ◌∷◌, map, true, false, ◌≡◌, refl, ◌∙◌, inl, inr, Bool-cases, contains,
  contains→mem, mem→contains, has, has-keys, keys, list_eq, nat_eq, Memᴰ, head, tail, mem-append,
  mem_append_left, mem_append_right, mem-map, map-mem,
}
use ha_device_links.Models.{Link, ObservedLink, fingerprint}
use ha_device_links.Backends.{ObservedDevice}
use ha_device_links.Coordinator.State.{Coordinator, is_available}
use ha_device_links.Coordinator.Scope.{IsAnswering, is_available-IsAnswering}
use ha_device_links.Coordinator.Drift.{present_from, present}

-- Some device of a list, which is not known to be away, holds an entry with a fingerprint.
abbrev IsHeldIn : Coordinator → Dict Text ObservedDevice → Text → Type 0
IsHeldIn c observed f =
    (e : Text × ObservedDevice) × (o : ObservedLink) × Memᴰ e observed
    × (contains c.unavailable e.0 ≡ false)
    × Memᴰ o e.1.links
    × (fingerprint o.link ≡ f)

-- A device that was read and answers holds the link.
abbrev pub IsHeld : Coordinator → Link → Type 0
IsHeld c l = IsHeldIn c c.observed (fingerprint l)

later-IsHeldIn :
    (c : Coordinator) (e : Text × ObservedDevice) (observed : Dict Text ObservedDevice) (f : Text)
    → IsHeldIn c observed f
    → IsHeldIn c (e ∷ observed) f
later-IsHeldIn c e observed f (d, o, m, near, n, same) = (d, o, tail m, near, n, same)

present_from-IsHeldIn :
    (c : Coordinator) (observed : Dict Text ObservedDevice) (f : Text)
    → Memᴰ f (present_from c observed)
    → IsHeldIn c observed f
unfolding present_from
present_from-IsHeldIn c [] f m = elim m [ ]
present_from-IsHeldIn c ((i, d) ∷ rest) f m = elim (Bool-cases (is_available c i)) [
  | inr away ↦ later-IsHeldIn c (i, d) rest f (present_from-IsHeldIn c rest f (rw away at m))
  | inl there ↦
      elim (mem-append (map (λ (o : ObservedLink). fingerprint o.link) d.links)
        (present_from c rest) (rw there at m)) [
          | inr later ↦ later-IsHeldIn c (i, d) rest f (present_from-IsHeldIn c rest f later)
          | inl here ↦
              let (o, n, same) = mem-map (λ (o : ObservedLink). fingerprint o.link) d.links here in
              let (_, _, near) = is_available-IsAnswering c i there in
              ((i, d), o, head refl, near, n, same)
        ]
]

mem-present_from :
    (c : Coordinator) (observed : Dict Text ObservedDevice) (e : Text × ObservedDevice)
    (o : ObservedLink)
    → Memᴰ e observed
    → is_available c e.0 ≡ true
    → Memᴰ o e.1.links
    → Memᴰ (fingerprint o.link) (present_from c observed)
unfolding present_from
mem-present_from c [] e o m there n = elim m [ ]
mem-present_from c ((i, d) ∷ rest) e o (head same) there n =
    let fs = map (λ (o : ObservedLink). fingerprint o.link) d.links in
    let q : is_available c i ≡ true = rw same at there in
    let k : Memᴰ o d.links = rw same at n in
    rw q (
      mem_append_left fs (present_from c rest)
        (map-mem (λ (o : ObservedLink). fingerprint o.link) d.links k))
mem-present_from c ((i, d) ∷ rest) e o (tail m) there n =
    let later = mem-present_from c rest e o m there n in
    elim (Bool-cases (is_available c i)) [
      | inl near ↦ rw near (
          mem_append_right (map (λ (o : ObservedLink). fingerprint o.link) d.links)
            (present_from c rest) later)
      | inr away ↦ rw away later
    ]

entry-is_available :
    (c : Coordinator) (e : Text × ObservedDevice)
    → Memᴰ e c.observed
    → contains c.unavailable e.0 ≡ false
    → is_available c e.0 ≡ true
unfolding is_available keys
entry-is_available c e m near =
    let known : has c.observed e.0 ≡ true =
      has-keys c.observed e.0
      ∙ mem→contains (keys c.observed) e.0
          (map-mem (λ (e : Text × ObservedDevice). e.0) c.observed m) in
    rw (known, near) refl

pub IsHeld-present :
    (c : Coordinator) (l : Link) → IsHeld c l → contains (present c) (fingerprint l) ≡ true
unfolding present
IsHeld-present c l (e, o, m, near, n, same) =
    mem→contains (present c) (fingerprint l)
      (rw same at (mem-present_from c c.observed e o m (entry-is_available c e m near) n))

pub present-IsHeld :
    (c : Coordinator) (l : Link) → contains (present c) (fingerprint l) ≡ true → IsHeld c l
unfolding present
present-IsHeld c l h =
    present_from-IsHeldIn c c.observed (fingerprint l) (contains→mem (present c) (fingerprint l) h)

pub IsAnswering-is_available :
    (c : Coordinator) (i : Text) → IsAnswering c i → is_available c i ≡ true
unfolding is_available has
IsAnswering-is_available c i (d, found, near) = rw (found, near) refl
