-- ===== src/Backends/Zwave/Carried.antt =====
-- zwave_protocol.py `derive_emitters`: what a device reports never makes it raise, and each control is
-- one that the device's groups carry.
use ha_device_links.Prelude.{
  Text, Dict, ℕ, List, [], ◌∷◌, ◌++◌, Option, some, none, true, false, ◌≡◌, ◌≢◌, refl, ap, inl, inr,
  Bool-cases, if_intro, All, All-append, All-map, All-of_mem, Distinct, Memᴰ, mem→contains,
  contains, get, get-mem, mem-get, mem-All, put, put-All, keys, values, values-All, sort_by,
  insert_by, sort_by-All, Ord, ◌<=◌, list_eq, nat_eq, option_eq, nat_ord, list_ord,
}
use ha_device_links.Models.{Feature, feature_eq, feature_text, Emitter}
use ha_device_links.Backends.Zwave.Groups.{
  AssociationGroup, ReportedGroups, UsableGroup, features_of_group, number_of,
}
use ha_device_links.Backends.Zwave.Derive.{
  usable_group, usable_groups, members_in, members_of, by_profile_from, by_profile,
  profile_identifies_one_control, put_features, actions_from, build_emitter, named_emitter,
  profile_emitter, single_emitter, collect, first_number, sorted_emitters, derive_emitters,
}

module _ {ℓ κ} {A : Type ℓ} {K : Type κ} ⦃o : Ord K⦄ (key : A → K) where
  insert_by-All_inverse :
      (P : A → Type 0) (x : A) (ys : List A) → All P (insert_by key x ys) → P x × All P ys
  unfolding insert_by
  insert_by-All_inverse P x [] h = h
  insert_by-All_inverse P x (y ∷ ys) h = elim (Bool-cases (key x <= key y)) [
    | inl before ↦ rw before at h
    | inr behind ↦
        let k : P y × All P (insert_by key x ys) = rw behind at h in
        let (p, q) = insert_by-All_inverse P x ys k.1 in (p, (k.0, q))
  ]

  pub sort_by-All_inverse : (P : A → Type 0) (xs : List A) → All P (sort_by key xs) → All P xs
  unfolding sort_by
  sort_by-All_inverse P [] h = tt
  sort_by-All_inverse P (x ∷ xs) h =
      let (p, q) = insert_by-All_inverse P x (sort_by key xs) h in (p, sort_by-All_inverse P xs q)

  insert_by-nonempty : (x : A) (ys : List A) → insert_by key x ys ≢ []
  unfolding insert_by
  insert_by-nonempty x [] = λ h. cc h
  insert_by-nonempty x (y ∷ ys) = elim (Bool-cases (key x <= key y)) [
    | inl before ↦ rw before (λ h. cc h)
    | inr behind ↦ rw behind (λ h. cc h)
  ]

  pub sort_by-nonempty : (xs : List A) → xs ≢ [] → sort_by key xs ≢ []
  unfolding sort_by
  sort_by-nonempty [] h = λ e. h refl
  sort_by-nonempty (x ∷ xs) h = insert_by-nonempty x (sort_by key xs)

pub append-empty {ℓ} : {A : Type ℓ} (xs ys : List A) → xs ++ ys ≡ [] → (xs ≡ []) × (ys ≡ [])
append-empty [] ys h = (refl, h)
append-empty (x ∷ xs) ys h = cc h

pub collect-All {ℓ} :
    {A : Type ℓ} (Q : Emitter → Type 0) (f : A → Option Emitter) (xs : List A)
    → All (λ x. (e : Emitter) × (f x ≡ some e) × Q e) xs
    → (es : List Emitter) × (collect f xs ≡ some es) × All Q es
unfolding collect
collect-All Q f [] h = ([], refl, tt)
collect-All Q f (x ∷ xs) h =
    let (e, p, q) = h.0 in
    let (es, r, s) = collect-All Q f xs h.1 in (e ∷ es, rw (p, r) refl, (q, s))

module _ (groups : ReportedGroups) where
  -- A feature and a group that the device reports, that is not its lifeline, and that carries it.
  abbrev pub IsCarried : Feature × Text → Type 0
  IsCarried a =
      (g : AssociationGroup) × (get groups a.1 ≡ some g)
      × (g.is_lifeline ≡ false)
      × (contains (features_of_group (some g.issued_commands)) a.0 ≡ true)

  -- A control with such actions alone, and a group at least.
  abbrev pub IsOffered : Emitter → Type 0
  IsOffered e = All IsCarried e.actions × (e.is_lifeline ≡ false) × (e.group_ids ≢ [])

  abbrev IsUsable : UsableGroup → Type 0
  IsUsable u =
      (get groups u.group_id ≡ some u.group)
      × (u.group.is_lifeline ≡ false)
      × (u.features ≡ features_of_group (some u.group.issued_commands))

  usable_group-IsUsable :
      (id : Text) (g : AssociationGroup) (fs : List Feature) (rest : List UsableGroup)
      → fs ≡ features_of_group (some g.issued_commands)
      → get groups id ≡ some g
      → g.is_lifeline ≡ false
      → All IsUsable rest
      → All IsUsable (usable_group id g fs rest)
  usable_group-IsUsable id g [] rest e found plain h = h
  usable_group-IsUsable id g (f ∷ fs) rest e found plain h = ((found, plain, e), h)

  usable_groups-IsUsable :
      Distinct (keys groups)
      → (gs : ReportedGroups) → All (λ (e : Text × AssociationGroup). Memᴰ e groups) gs
      → All IsUsable (usable_groups gs)
  unfolding usable_groups
  usable_groups-IsUsable distinct [] h = tt
  usable_groups-IsUsable distinct ((id, g) ∷ gs) h =
      if_intro (All IsUsable) g.is_lifeline (usable_groups gs) _
        (λ t. usable_groups-IsUsable distinct gs h.1)
        (λ f.
          usable_group-IsUsable id g _ _ refl (mem-get groups id g distinct h.0) f
            (usable_groups-IsUsable distinct gs h.1))

  put_features-IsCarried :
      (d : Dict Feature Text) (id : Text) (fs : List Feature)
      → All IsCarried d
      → All (λ f. IsCarried (f, id)) fs
      → All IsCarried (put_features d id fs)
  unfolding put_features
  put_features-IsCarried d id [] h k = h
  put_features-IsCarried d id (f ∷ fs) h k =
      put_features-IsCarried (put d f id) id fs (put-All IsCarried d f id k.0 h) k.1

  features-IsCarried :
      (u : UsableGroup) → IsUsable u → All (λ f. IsCarried (f, u.group_id)) u.features
  features-IsCarried u h =
      All-of_mem u.features (λ f m. (u.group, h.0, h.1, rw (← h.2) (mem→contains u.features f m)))

  actions_from-IsCarried :
      (d : Dict Feature Text) (us : List UsableGroup)
      → All IsCarried d
      → All IsUsable us
      → All IsCarried (actions_from d us)
  unfolding actions_from
  actions_from-IsCarried d [] h k = h
  actions_from-IsCarried d (u ∷ us) h k =
      actions_from-IsCarried (put_features d u.group_id (sort_by feature_text u.features)) us
        (put_features-IsCarried d u.group_id (sort_by feature_text u.features) h (
          sort_by-All feature_text (λ f. IsCarried (f, u.group_id)) u.features
            (features-IsCarried u k.0)))
        k.1

  build_emitter-IsOffered :
      (us : List UsableGroup) (label grouping : Text)
      → us ≢ []
      → All IsUsable us
      → (e : Emitter) × (build_emitter us label grouping ≡ some e) × IsOffered e
  unfolding build_emitter
  build_emitter-IsOffered [] label grouping h k = absurd (h refl)
  build_emitter-IsOffered (u ∷ us) label grouping h k =
      (_, refl, (actions_from-IsCarried [] (u ∷ us) tt k, refl, λ e. cc e))

  -- The members of a profile
  abbrev AreMembers : List UsableGroup → Type 0
  AreMembers us = (us ≢ []) × All IsUsable us

  append-nonempty : (us : List UsableGroup) (u : UsableGroup) → us ++ (u ∷ []) ≢ []
  append-nonempty [] u = λ h. cc h
  append-nonempty (v ∷ us) u = λ h. cc h

  abbrev AreEntries : Dict (Option ℕ) (List UsableGroup) → Type 0
  AreEntries d = All (λ (e : Option ℕ × List UsableGroup). AreMembers e.1) d

  members_in-IsUsable :
      (o : Option (List UsableGroup))
      → ((us : List UsableGroup) → o ≡ some us → All IsUsable us)
      → All IsUsable (members_in o)
  members_in-IsUsable none h = tt
  members_in-IsUsable (some us) h = h us refl

  members_of-IsUsable :
      (d : Dict (Option ℕ) (List UsableGroup)) (p : Option ℕ)
      → AreEntries d
      → All IsUsable (members_of d p)
  members_of-IsUsable d p h = members_in-IsUsable (get d p) (λ us found.
      (mem-All (λ (e : Option ℕ × List UsableGroup). AreMembers e.1) d h (get-mem d p found)).1)

  by_profile_from-AreEntries :
      (d : Dict (Option ℕ) (List UsableGroup)) (us : List UsableGroup)
      → AreEntries d
      → All IsUsable us
      → AreEntries (by_profile_from d us)
  unfolding by_profile_from
  by_profile_from-AreEntries d [] h k = h
  by_profile_from-AreEntries d (u ∷ us) h k =
      by_profile_from-AreEntries (put d u.group.profile (members_of d u.group.profile ++ (u ∷ [])))
        us
        (put-All (λ (e : Option ℕ × List UsableGroup). AreMembers e.1) d u.group.profile _
          (
            append-nonempty (members_of d u.group.profile) u,
            All-append IsUsable _ (u ∷ []) (members_of-IsUsable d u.group.profile h) (k.0, tt),
          )
          h)
        k.1

  named_emitter-IsOffered :
      (us : List UsableGroup)
      → AreMembers us
      → (e : Emitter) × (named_emitter us ≡ some e) × IsOffered e
  unfolding named_emitter
  named_emitter-IsOffered [] h = absurd (h.0 refl)
  named_emitter-IsOffered (u ∷ us) h = build_emitter-IsOffered (u ∷ us) _ _ h.0 h.1

  profile_emitter-IsOffered :
      (us : List UsableGroup)
      → AreMembers us
      → (e : Emitter) × (profile_emitter us ≡ some e) × IsOffered e
  unfolding profile_emitter
  profile_emitter-IsOffered us h =
      named_emitter-IsOffered (sort_by (λ (u : UsableGroup). number_of u.group_id) us) (
        sort_by-nonempty (λ (u : UsableGroup). number_of u.group_id) us h.0,
        sort_by-All (λ (u : UsableGroup). number_of u.group_id) IsUsable us h.1,
      )

  abbrev pub AreOffered : Option (List Emitter) → Type 0
  AreOffered o = (es : List Emitter) × (o ≡ some es) × All IsOffered es

  pub sorted_emitters-AreOffered :
      (o : Option (List Emitter)) → AreOffered o → AreOffered (sorted_emitters o)
  sorted_emitters-AreOffered o h =
      let (es, e, k) = h in
      (sort_by first_number es, ap sorted_emitters e, sort_by-All first_number IsOffered es k)

  -- What a device reports never makes `derive_emitters` raise, and each control is one that the groups
  -- carry.
  pub derive_emitters-AreOffered : Distinct (keys groups) → AreOffered (derive_emitters groups)
  unfolding derive_emitters by_profile
  derive_emitters-AreOffered distinct =
      let usable = usable_groups groups in
      let h = usable_groups-IsUsable distinct groups (All-of_mem groups (λ e m. m)) in
      let d = by_profile_from [] usable in
      sorted_emitters-AreOffered _ (
        if_intro AreOffered (profile_identifies_one_control d) (collect profile_emitter (values d))
          (collect single_emitter usable)
          (λ t. collect-All IsOffered profile_emitter (values d) (
            All-map (values d) profile_emitter-IsOffered
              (values-All AreMembers d (by_profile_from-AreEntries [] usable tt h))))
          (λ f.
            collect-All IsOffered single_emitter usable
              (All-map usable (λ u k. build_emitter-IsOffered (u ∷ []) _ _ (λ e. cc e) (k, tt)) h)))
