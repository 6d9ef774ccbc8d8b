-- ===== src/Coordinator/Counted.antt =====
-- coordinator.py: a write waits exactly while its last result says so.
use ha_device_links.Prelude.{
  Text, text, Dict, List, [], ◌∷◌, ◌++◌, map, Option, some, none, Bool, true, false, ◌≡◌, refl, sym,
  ap, ◌∙◌, inl, inr, arith, Bool-cases, contains, get, put, get-put, keep, keys, Distinct,
  put-Distinct, ◌==◌, eq_iff, list_eq, nat_eq, if◌then◌else◌,
}
use ha_device_links.Storage.{JobSummary, JobLinkResult}
use ha_device_links.Coordinator.State.{Coordinator}
use ha_device_links.Coordinator.Drift.{note_results, note_jobs, pending_link_fingerprints}

-- The last result for a fingerprint.
abbrev pub later : Option JobLinkResult → Option JobLinkResult → Option JobLinkResult
later o none = o
later o (some r) = some r

abbrev pub last_result : List JobLinkResult → Text → Option JobLinkResult
last_result [] f = none
last_result (r ∷ rs) f = later (if r.fingerprint == f then some r else none) (last_result rs f)

abbrev pub all_results : List JobSummary → List JobLinkResult
all_results [] = []
all_results (j ∷ js) = j.results ++ all_results js

abbrev pub waits : Option JobLinkResult → Bool
waits none = false
waits (some r) = r.status == text "pending_wakeup"

note_results-append :
    (latest : Dict Text Bool) (rs ss : List JobLinkResult)
    → note_results latest (rs ++ ss) ≡ note_results (note_results latest rs) ss
unfolding note_results
note_results-append latest [] ss = refl
note_results-append latest (r ∷ rs) ss =
    note_results-append (put latest r.fingerprint (r.status == text "pending_wakeup")) rs ss

note_jobs-results :
    (latest : Dict Text Bool) (js : List JobSummary)
    → note_jobs latest js ≡ note_results latest (all_results js)
unfolding note_jobs note_results
note_jobs-results latest [] = refl
note_jobs-results latest (j ∷ js) =
    note_jobs-results (note_results latest j.results) js
    ∙ sym (note_results-append latest j.results (all_results js))

abbrev is_set : Option Bool → Bool
is_set none = false
is_set (some b) = b

abbrev overruled : Bool → Option JobLinkResult → Bool
overruled b none = b
overruled b (some r) = r.status == text "pending_wakeup"

overruled-later :
    (b : Bool) (r : JobLinkResult) (same : Bool) (o : Option JobLinkResult)
    → overruled (if same then r.status == text "pending_wakeup" else b) o
      ≡ overruled b (later (if same then some r else none) o)
overruled-later b r same (some q) = refl
overruled-later b r true none = refl
overruled-later b r false none = refl

is_set-if :
    (same : Bool) (b : Bool) (o : Option Bool)
    → is_set (if same then some b else o) ≡ (if same then b else is_set o)
is_set-if true b o = refl
is_set-if false b o = refl

is_set-note_results :
    (latest : Dict Text Bool) (rs : List JobLinkResult) (f : Text)
    → is_set (get (note_results latest rs) f) ≡ overruled (is_set (get latest f)) (last_result rs f)
unfolding note_results
is_set-note_results latest [] f = refl
is_set-note_results latest (r ∷ rs) f =
    is_set-note_results (put latest r.fingerprint (r.status == text "pending_wakeup")) rs f
    ∙ ap (λ o. overruled (is_set o) (last_result rs f))
        (get-put latest r.fingerprint f (r.status == text "pending_wakeup"))
    ∙ ap (λ b. overruled b (last_result rs f))
        (is_set-if (r.fingerprint == f) (r.status == text "pending_wakeup") (get latest f))
    ∙ overruled-later (is_set (get latest f)) r (r.fingerprint == f) (last_result rs f)

note_results-Distinct :
    (latest : Dict Text Bool) (rs : List JobLinkResult)
    → Distinct (keys latest)
    → Distinct (keys (note_results latest rs))
unfolding note_results
note_results-Distinct latest [] h = h
note_results-Distinct latest (r ∷ rs) h =
    note_results-Distinct (put latest r.fingerprint (r.status == text "pending_wakeup")) rs
      (put-Distinct latest r.fingerprint (r.status == text "pending_wakeup") h)

abbrev set_keys : Dict Text Bool → List Text
set_keys d = map (λ (e : Text × Bool). e.0) (keep (λ (e : Text × Bool). e.1) d)

contains-set_keys_absent :
    (d : Dict Text Bool) (f : Text) → contains (keys d) f ≡ false → contains (set_keys d) f ≡ false
unfolding keep contains keys
contains-set_keys_absent [] f h = refl
contains-set_keys_absent ((i, true) ∷ d) f h = ground (arith, h, contains-set_keys_absent d f)
contains-set_keys_absent ((i, false) ∷ d) f h = ground (arith, h, contains-set_keys_absent d f)

own_key :
    (b : Bool) (i : Text) (d : Dict Text Bool) (f : Text)
    → (i == f) ≡ true
    → contains (set_keys d) f ≡ false
    → contains (set_keys ((i, b) ∷ d)) f ≡ b
unfolding keep contains
own_key true i d f same h = rw same refl
own_key false i d f same h = h

other_key :
    (b : Bool) (i : Text) (d : Dict Text Bool) (f : Text)
    → (i == f) ≡ false
    → contains (set_keys ((i, b) ∷ d)) f ≡ contains (set_keys d) f
unfolding keep contains
other_key true i d f other = rw other refl
other_key false i d f other = refl

contains-set_keys :
    (d : Dict Text Bool) (f : Text) → Distinct (keys d) → contains (set_keys d) f ≡ is_set (get d f)
unfolding keys get contains keep
contains-set_keys [] f h = refl
contains-set_keys ((i, b) ∷ d) f h = elim (Bool-cases (i == f)) [
  | inl same ↦
      let e : i ≡ f = (eq_iff i f).0 same in
      rw same (own_key b i d f same (contains-set_keys_absent d f (rw e at h.0)))
  | inr other ↦ rw other (other_key b i d f other ∙ contains-set_keys d f h.1)
]

overruled-waits : (o : Option JobLinkResult) → overruled false o ≡ waits o
overruled-waits none = refl
overruled-waits (some r) = refl

-- A write waits for its device to wake exactly if the last of all recorded results for its
-- fingerprint says so.
pub contains-pending_link_fingerprints :
    (c : Coordinator) (f : Text)
    → contains (pending_link_fingerprints c) f ≡ waits (last_result (all_results c.state.jobs) f)
unfolding pending_link_fingerprints get keys
contains-pending_link_fingerprints c f =
    let rs = all_results c.state.jobs in
    ap (λ d. contains (set_keys d) f) (note_jobs-results [] c.state.jobs)
    ∙ contains-set_keys (note_results [] rs) f (note_results-Distinct [] rs tt)
    ∙ is_set-note_results [] rs f
    ∙ overruled-waits (last_result rs f)
