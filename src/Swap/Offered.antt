-- ===== src/Swap/Offered.antt =====
-- swap.py `find_replacements`: every replacement that is offered looks like one.
use ha_device_links.Prelude.{
  Text, Dict, List, [], ◌∷◌, map, Option, none, some, Bool, true, false, not, ◌&&◌, ◌||◌, ◌≡◌, ◌⊎◌,
  refl, inl, inr, arith, Bool-cases, All, All-of_mem, mem-All, Memᴰ, mem-keep, keep, contains, get,
  has, put-All, sort_by, sort_by-All, values-All, list_eq, nat_eq, list_ord, nat_ord, ◌==◌,
}
use ha_device_links.Models.{Backend, backend_eq, DeviceHandle, identity, Rule}
use ha_device_links.Swap.Propose.{same_model_key}
use ha_device_links.Swap.Replacements.{
  Replacement, all_handles, naming_rules, candidates_for, replacement_at, replacement_for,
  add_replacement, found_replacement, find_from, find_replacements, is_nil,
}

module _ (rules : List Rule) (listed : Dict Text DeviceHandle) (answering : List Backend) where
  abbrev referenced : List Text
  referenced = map identity (all_handles rules)

  -- Another model answers at the address of the device.
  abbrev IsInPlace : Replacement → Type 0
  IsInPlace r =
      (r.changed_in_place ≡ true)
      × ((here : DeviceHandle) × (get listed (identity r.old) ≡ some here)
          × (same_model_key here r.old ≡ false)
          × (r.candidates ≡ here ∷ []))

  -- A device that no rule names, on the same backend and of the same model.
  abbrev IsCandidate : DeviceHandle → DeviceHandle → Type 0
  IsCandidate old d =
      (device : Text) × Memᴰ (device, d) listed
      × (contains referenced device ≡ false)
      × ((d.backend == old.backend) ≡ true)
      × (same_model_key d old ≡ true)

  -- The device is no longer listed.
  abbrev IsGone : Replacement → Type 0
  IsGone r =
      (r.changed_in_place ≡ false)
      × (get listed (identity r.old) ≡ none)
      × All (IsCandidate r.old) r.candidates

  pub record IsOffer (require_candidate : Bool) (r : Replacement) : Type 0 where
    pub named : Memᴰ r.old (all_handles rules)
    pub answers : contains answering r.old.backend ≡ true
    pub looks : IsInPlace r ⊎ IsGone r
    pub ids : r.rule_ids ≡ naming_rules rules (identity r.old)
    pub offered : (not (is_nil r.candidates) || not require_candidate) ≡ true

  candidates_for-IsCandidate :
      (old : DeviceHandle) → All (IsCandidate old) (candidates_for old listed referenced)
  unfolding candidates_for
  candidates_for-IsCandidate old =
      let test = λ (e : Text × DeviceHandle).
        not (contains referenced e.0) && e.1.backend == old.backend && same_model_key e.1 old in
      let P = λ (e : Text × DeviceHandle). Memᴰ e listed in
      let sorted = sort_by (λ (e : Text × DeviceHandle). e.0) listed in
      let all_listed : All P sorted =
        sort_by-All (λ e. e.0) P listed (All-of_mem listed (λ e m. m)) in
      values-All (IsCandidate old) (keep test sorted) (
        All-of_mem (keep test sorted) (λ e m.
          let (n, t) = mem-keep test sorted m in
          (
            e.0,
            mem-All P sorted all_listed n,
            ground (arith, t),
            ground (arith, t),
            ground (arith, t),
          )))

  replacement_at-looks :
      (handle : DeviceHandle) (o : Option DeviceHandle) (r : Replacement)
      → get listed (identity handle) ≡ o
      → replacement_at handle listed referenced rules o ≡ some r
      → (r.old ≡ handle)
        × (IsInPlace r ⊎ IsGone r)
        × (r.rule_ids ≡ naming_rules rules (identity handle))
  unfolding replacement_at
  replacement_at-looks handle none r gone h =
      let e : record {
        old = handle;
        candidates = candidates_for handle listed referenced;
        changed_in_place = false;
        rule_ids = naming_rules rules (identity handle);
      }
          ≡ r =
        (cc h) in
      rw (← e) (refl, inr (refl, gone, candidates_for-IsCandidate handle), refl)
  replacement_at-looks handle (some here) r found h =
      elim (Bool-cases (same_model_key here handle)) [
        | inl same ↦ cc (rw same at h)
        | inr other ↦
            let e : record {
              old = handle;
              candidates = here ∷ [];
              changed_in_place = true;
              rule_ids = naming_rules rules (identity handle);
            }
                ≡ r =
              (cc (rw other at h)) in
            rw (← e) (refl, inl (refl, (here, found, other, refl)), refl)
      ]

  module _ (require_candidate : Bool) where
    add_replacement-All :
        (found : Dict Text Replacement) (handle : DeviceHandle) (o : Option Replacement)
        → replacement_for handle listed referenced rules ≡ o
        → Memᴰ handle (all_handles rules)
        → contains answering handle.backend ≡ true
        → All (λ e. IsOffer require_candidate e.1) found
        → All
            (λ e. IsOffer require_candidate e.1)
            (add_replacement require_candidate found (identity handle) o)
    unfolding add_replacement replacement_for
    add_replacement-All found handle none e m a h = h
    add_replacement-All found handle (some r) e m a h =
        elim (Bool-cases (not (is_nil r.candidates) || not require_candidate)) [
          | inr lacking ↦ rw lacking h
          | inl offered ↦
              let (same, looks, ids) =
                replacement_at-looks handle (get listed (identity handle)) r refl e in
              rw offered (
                put-All (λ e. IsOffer require_candidate e.1) found (identity handle) r
                  (record {
                    named = rw same m;
                    answers = rw same a;
                    looks = looks;
                    ids = rw same ids;
                    offered = offered;
                  })
                  h)
        ]

    find_from-All :
        (handles : List DeviceHandle) (found : Dict Text Replacement)
        → All (λ h. Memᴰ h (all_handles rules)) handles
        → All (λ e. IsOffer require_candidate e.1) found
        → All
            (λ e. IsOffer require_candidate e.1)
            (find_from listed referenced rules require_candidate answering found handles)
    unfolding find_from found_replacement
    find_from-All [] found m h = h
    find_from-All (handle ∷ handles) found m h =
        find_from-All handles _ m.1
          (elim (Bool-cases
            (not (contains answering handle.backend) || has found (identity handle))) [
              | inl skip ↦ rw skip h
              | inr look ↦ rw look (
                  add_replacement-All found handle (replacement_for handle listed referenced rules)
                    refl m.0 (ground (arith, look)) h)
            ])

    -- Every replacement that is found is of a device that a rule names, on a backend that answers,
    -- with the ids of the rules that name it. Either another model answers at its address and is the
    -- one candidate, or it is not listed, and each candidate is a listed device that no rule names,
    -- on its backend and of its model. Where a candidate is required there is one.
    pub find_replacements-IsOffer :
        All (IsOffer require_candidate) (find_replacements rules listed answering require_candidate)
    unfolding find_replacements
    find_replacements-IsOffer = values-All (IsOffer require_candidate) _ (
        sort_by-All (λ e. e.0) (λ e. IsOffer require_candidate e.1) _
          (find_from-All (all_handles rules) [] (All-of_mem (all_handles rules) (λ h m. m)) tt))
