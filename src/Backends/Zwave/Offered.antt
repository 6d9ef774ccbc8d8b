-- ===== src/Backends/Zwave/Offered.antt =====
-- zwave_protocol.py `resolve_emitters`: a curated entry never makes a control offer what the device's
-- groups do not carry.
use ha_device_links.Prelude.{
  Text, Dict, ℕ, List, [], ◌∷◌, Option, some, none, ◌≡◌, ◌≢◌, refl, inl, inr, Bool-cases, All,
  All-map, Distinct, contains, dedup, dedup-All, get, keys, values, values-All, sort, sort_by-All,
  list_eq, nat_eq, nat_ord, list_ord,
}
use ha_device_links.Models.{Feature, feature_eq, feature_text, Emitter}
use ha_device_links.Backends.Zwave.Groups.{
  AssociationGroup, ReportedGroups, features_of_group, number_of,
}
use ha_device_links.Backends.Zwave.Derive.{Warning, derive_emitters}
use ha_device_links.Backends.Zwave.Curated.{
  ProfileEmitter, action_conflicts, emitter_conflicts, entry_conflicts, members_named, capacity_by,
  curated_by, curated_with, group_ids_of, curated_emitter, derived_ids_from, curated, resolve_with,
  resolve_emitters,
}
use ha_device_links.Backends.Zwave.Carried.{
  sort_by-All_inverse, sort_by-nonempty, append-empty, collect-All, IsCarried, IsOffered,
  AreOffered, sorted_emitters-AreOffered, derive_emitters-AreOffered,
}

-- What `_curated_emitter` relies on: profile_db.py accepts no control without an action.
abbrev pub AreEntry : List ProfileEmitter → Type 0
AreEntry entry = All (λ (e : ProfileEmitter). e.actions ≢ []) entry

capacity_by-value :
    (o : Option ℕ) (gs : List AssociationGroup) → gs ≢ [] → (n : ℕ) × (capacity_by o gs ≡ some n)
unfolding capacity_by
capacity_by-value (some n) gs h = (n, refl)
capacity_by-value none [] h = absurd (h refl)
capacity_by-value none (g ∷ gs) h = (_, refl)

values-nonempty : (d : Dict Feature Text) → d ≢ [] → values d ≢ []
unfolding values
values-nonempty [] h = λ e. h refl
values-nonempty ((f, id) ∷ d) h = λ e. cc e

dedup-nonempty : (xs : List Text) → xs ≢ [] → dedup xs ≢ []
unfolding dedup
dedup-nonempty [] h = λ e. h refl
dedup-nonempty (x ∷ xs) h = λ e. cc e

module _ (groups : ReportedGroups) where
  conflict-IsCarried :
      (emitter_id : Text) (f : Feature) (id : Text) (o : Option AssociationGroup)
      → get groups id ≡ o
      → action_conflicts emitter_id f id o ≡ []
      → IsCarried groups (f, id)
  unfolding action_conflicts
  conflict-IsCarried emitter_id f id none found h = cc h
  conflict-IsCarried emitter_id f id (some g) found h = elim (Bool-cases g.is_lifeline) [
    | inl lifeline ↦ cc (rw lifeline at h)
    | inr plain ↦ elim (Bool-cases (contains (features_of_group (some g.issued_commands)) f)) [
      | inl carried ↦ (g, found, plain, carried)
      | inr other ↦ cc (rw (plain, other) at h)
    ]
  ]

  emitter_conflicts-IsCarried :
      (emitter_id : Text) (actions : List (Feature × Text))
      → emitter_conflicts groups emitter_id actions ≡ []
      → All (IsCarried groups) actions
  unfolding emitter_conflicts
  emitter_conflicts-IsCarried emitter_id [] h = tt
  emitter_conflicts-IsCarried emitter_id ((f, id) ∷ rest) h =
      let (a, b) =
        append-empty (action_conflicts emitter_id f id (get groups id))
          (emitter_conflicts groups emitter_id rest) h in
      (
        conflict-IsCarried emitter_id f id (get groups id) refl a,
        emitter_conflicts-IsCarried emitter_id rest b,
      )

  entry_conflicts-IsCarried :
      (entry : List ProfileEmitter)
      → entry_conflicts entry groups ≡ []
      → All (λ (e : ProfileEmitter). All (IsCarried groups) e.actions) entry
  unfolding entry_conflicts
  entry_conflicts-IsCarried [] h = tt
  entry_conflicts-IsCarried (e ∷ es) h =
      let (a, b) =
        append-empty (emitter_conflicts groups e.emitter_id _) (entry_conflicts es groups) h in
      (
        sort_by-All_inverse (λ (a : Feature × Text). feature_text a.0) (IsCarried groups) e.actions
            (emitter_conflicts-IsCarried e.emitter_id _ a),
        entry_conflicts-IsCarried es b,
      )

  abbrev IsReported : Text → Type 0
  IsReported id = (g : AssociationGroup) × (get groups id ≡ some g)

  members_named-value :
      (ids : List Text)
      → ids ≢ []
      → All IsReported ids
      → (gs : List AssociationGroup) × (members_named groups ids ≡ some gs) × (gs ≢ [])
  unfolding members_named
  members_named-value [] h k = absurd (h refl)
  members_named-value (id ∷ []) h k = let (g, e) = k.0 in (g ∷ [], rw e refl, λ e. cc e)
  members_named-value (id ∷ j ∷ ids) h k =
      let (g, e) = k.0 in
      let (gs, p, q) = members_named-value (j ∷ ids) (λ e. cc e) k.1 in
      (g ∷ gs, rw (e, p) refl, λ e. cc e)

  curated_by-IsOffered :
      (e : ProfileEmitter) (ids : List Text) (derived : Option Text) (gs : List AssociationGroup)
      (o : Option ℕ) (n : ℕ)
      → o ≡ some n
      → ids ≢ []
      → All (IsCarried groups) e.actions
      → (c : Emitter) × (curated_by e ids derived gs o ≡ some c) × IsOffered groups c
  unfolding curated_by
  curated_by-IsOffered e ids derived gs none n p h k = cc p
  curated_by-IsOffered e ids derived gs (some m) n p h k = (_, refl, (k, refl, h))

  curated_with-IsOffered :
      (e : ProfileEmitter) (ids : List Text) (derived : Option Text) (gs : List AssociationGroup)
      → ids ≢ []
      → gs ≢ []
      → All (IsCarried groups) e.actions
      → (c : Emitter) × (curated_with e ids derived (some gs) ≡ some c) × IsOffered groups c
  unfolding curated_with
  curated_with-IsOffered e ids derived gs h g k =
      let (n, p) = capacity_by-value e.capacity_override gs g in
      curated_by-IsOffered e ids derived gs (capacity_by e.capacity_override gs) n p h k

  curated_emitter-IsOffered :
      (d : Dict (List Text) Text) (e : ProfileEmitter)
      → e.actions ≢ []
      → All (IsCarried groups) e.actions
      → (c : Emitter) × (curated_emitter groups d e ≡ some c) × IsOffered groups c
  unfolding curated_emitter
  curated_emitter-IsOffered d e h k =
      let ids = group_ids_of e in
      let some_id : ids ≢ [] =
        sort_by-nonempty number_of (dedup (values e.actions))
          (dedup-nonempty (values e.actions) (values-nonempty e.actions h)) in
      let reported : All IsReported ids =
        sort_by-All number_of IsReported (dedup (values e.actions)) (
          dedup-All IsReported (values e.actions)
            (values-All IsReported e.actions (All-map e.actions (λ a c. (c.0, c.1)) k))) in
      let (gs, p, g) = members_named-value ids some_id reported in
      rw p (curated_with-IsOffered e ids (get d (sort (dedup ids))) gs some_id g k)

  curated-AreOffered :
      (entry : List ProfileEmitter) (o : Option (List Emitter))
      → AreEntry entry
      → All (λ (e : ProfileEmitter). All (IsCarried groups) e.actions) entry
      → AreOffered groups o
      → AreOffered groups (curated groups entry o)
  unfolding curated
  curated-AreOffered entry none h k o = let (es, e, _) = o in cc e
  curated-AreOffered entry (some derived) h k o = sorted_emitters-AreOffered groups _ (
      collect-All (IsOffered groups) (curated_emitter groups (derived_ids_from [] derived)) entry
        (both entry h k))
    where
      both :
          (es : List ProfileEmitter)
          → AreEntry es
          → All (λ (e : ProfileEmitter). All (IsCarried groups) e.actions) es
          → All
              (λ e.
                (c : Emitter) × (curated_emitter groups (derived_ids_from [] derived) e ≡ some c)
                × IsOffered groups c)
              es
      both [] h k = tt
      both (e ∷ es) h k =
          (curated_emitter-IsOffered (derived_ids_from [] derived) e h.0 k.0, both es h.1 k.1)

  resolve_with-AreOffered :
      (entry : List ProfileEmitter) (ws : List Warning) (o : Option (List Emitter))
      → AreEntry entry
      → entry_conflicts entry groups ≡ ws
      → AreOffered groups o
      → AreOffered groups (resolve_with groups entry ws o)
  unfolding resolve_with
  resolve_with-AreOffered entry [] o h e k =
      curated-AreOffered entry o h (entry_conflicts-IsCarried entry e) k
  resolve_with-AreOffered entry (w ∷ ws) o h e k = k

abbrev pub entry_of : Option (List ProfileEmitter) → List ProfileEmitter
entry_of none = []
entry_of (some entry) = entry

-- Whatever groups a device reports, each under a number of its own, and whatever a curated entry says
-- whose controls have an action at least: the controls are worked out without an exception, and each
-- has a group and is no lifeline, and each of its actions is by a group that the device reports, that
-- is not its lifeline, and that issues a command of the feature.
pub resolve_emitters-AreOffered :
    (groups : ReportedGroups) (entry : Option (List ProfileEmitter))
    → Distinct (keys groups)
    → AreEntry (entry_of entry)
    → AreOffered groups (resolve_emitters groups entry)
unfolding resolve_emitters
resolve_emitters-AreOffered groups none distinct h = derive_emitters-AreOffered groups distinct
resolve_emitters-AreOffered groups (some entry) distinct h =
    resolve_with-AreOffered groups entry (entry_conflicts entry groups) (derive_emitters groups) h
      refl (derive_emitters-AreOffered groups distinct)
