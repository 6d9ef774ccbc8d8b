-- ===== src/Executor/Permitted.antt =====
-- executor.py `_refusal`: what a link must be to be written.
use ha_device_links.Prelude.{
  Text, List, [], ◌∷◌, Option, some, none, true, false, ◌≡◌, ◌⊎◌, refl, inl, inr, Bool-cases,
  is_some, All, Memᴰ, contains, contains→mem, any, Bool, not, ◌&&◌, ◌||◌, ◌≢◌, ne_of_beq, eq-cases,
  eq_refl, get, list_eq, nat_eq,
}
use ha_device_links.Models.{
  identity, ItemLink, Link, ObservedLink, plain_link, observed_link, fingerprint, backend_eq,
}
use ha_device_links.Backends.{SystemScope, slot, entry, ObservedDevice}
use ha_device_links.Coordinator.{Coordinator, observed_for}
use ha_device_links.Executor.Refuse.{
  reads_system, shares_slot, slot_taken, protects_slot, is_unselected,
}

-- An entry that the device's adapter does not mark as its own, or that stands in another slot than a
-- link: at another endpoint or in another group.
abbrev pub IsApart : Link → ObservedLink → Type 0
IsApart l e =
    (e.is_system ≡ false)
    ⊎ ((e.link.source_endpoint ≢ l.source_endpoint) ⊎ (e.link.emitter_group ≢ l.emitter_group))

-- Where a system entry takes its whole slot, each entry of a device that was read is apart.
abbrev pub IsFree : Option SystemScope → Option ObservedDevice → Link → Type 0
IsFree (some slot) (some d) l = All (IsApart l) d.links
IsFree (some slot) none l = Unit
IsFree (some entry) d l = Unit
IsFree none d l = Unit

-- A link that was not read as a system entry.
abbrev pub IsOrdinary : ItemLink → Type 0
IsOrdinary (observed_link o) = o.is_system ≡ false
IsOrdinary (plain_link l) = Unit

-- A link that was read and has an owner, or was selected.
abbrev pub IsChosen : List Text → ItemLink → Type 0
IsChosen selected (observed_link o) =
    ((owner : Text) × (o.managed_by ≡ some owner)) ⊎ Memᴰ (fingerprint o.link) selected
IsChosen selected (plain_link l) = ⊥

-- A link that nobody read.
abbrev pub IsUnread : ItemLink → Type 0
IsUnread (plain_link l) = Unit
IsUnread (observed_link o) = ⊥

and-false : (a b : Bool) → (a && b) ≡ false → (a ≡ false) ⊎ (b ≡ false)
and-false true b h = inr h
and-false false b h = inl refl

pub or-false : (a b : Bool) → (a || b) ≡ false → (a ≡ false) × (b ≡ false)
or-false true b h = cc h
or-false false b h = (refl, h)

not-is_some : (o : Option Text) → not (is_some o) ≡ false → (a : Text) × (o ≡ some a)
not-is_some none h = cc h
not-is_some (some a) h = (a, refl)

shares_slot-IsApart : (l : Link) (e : ObservedLink) → shares_slot l e ≡ false → IsApart l e
shares_slot-IsApart l e h = elim (Bool-cases e.is_system) [
  | inr plain ↦ inl plain
  | inl system ↦ inr (elim (eq-cases e.link.source_endpoint l.source_endpoint) [
    | inr a ↦ inl (ne_of_beq e.link.source_endpoint l.source_endpoint a)
    | inl same ↦ elim (eq-cases e.link.emitter_group l.emitter_group) [
      | inr b ↦ inr (ne_of_beq e.link.emitter_group l.emitter_group b)
      | inl group ↦
          cc (rw (system, same, group, eq_refl l.source_endpoint, eq_refl l.emitter_group) at h)
    ]
  ])
]

any-IsApart :
    (l : Link) (es : List ObservedLink) → any (shares_slot l) es ≡ false → All (IsApart l) es
unfolding any
any-IsApart l [] h = tt
any-IsApart l (e ∷ es) h =
    let (apart, rest) = or-false (shares_slot l e) (any (shares_slot l) es) h in
    (shares_slot-IsApart l e apart, any-IsApart l es rest)

slot_taken-IsFree :
    (l : Link) (d : Option ObservedDevice) → slot_taken l d ≡ false → IsFree (some slot) d l
slot_taken-IsFree l none h = tt
slot_taken-IsFree l (some d) h = any-IsApart l d.links h

pub protects_slot-IsFree :
    (c : Coordinator) (l : Link) (b : Option SystemScope)
    → protects_slot c l b ≡ false
    → IsFree b (get c.observed (identity l.source)) l
unfolding protects_slot observed_for
protects_slot-IsFree c l (some slot) h = slot_taken-IsFree l (get c.observed (identity l.source)) h
protects_slot-IsFree c l (some entry) h = tt
protects_slot-IsFree c l none h = tt

pub reads_system-IsOrdinary : (l : ItemLink) → reads_system l ≡ false → IsOrdinary l
reads_system-IsOrdinary (plain_link l) h = tt
reads_system-IsOrdinary (observed_link o) h = h

pub is_unselected-IsChosen :
    (l : ItemLink) (selected : List Text)
    → is_unselected l selected ≡ false
    → IsChosen selected l ⊎ IsUnread l
is_unselected-IsChosen (plain_link l) selected h = inr tt
is_unselected-IsChosen (observed_link o) selected h =
    inl
      (elim (and-false (not (is_some o.managed_by)) (not (contains selected (fingerprint o.link)))
        h) [
          | inl owned ↦ inl (not-is_some o.managed_by owned)
          | inr picked ↦ inr (contains→mem selected (fingerprint o.link) (not-false _ picked))
        ])
  where
    not-false : (b : Bool) → not b ≡ false → b ≡ true
    not-false true h = refl
    not-false false h = cc h
