-- ===== src/Storage/State.antt =====
-- storage.py: the stored state and its bounded histories.
use ha_device_links.Prelude.{
  Text, ℕ, zero, suc, ◌-◌, List, [], ◌∷◌, ◌++◌, Option, some, none, length, ◌==◌, list_eq, nat_eq,
  option_eq, if◌then◌else◌,
}
use ha_device_links.Models.{ObservedLink, Profile}

pub record Snapshot : Type 0 where
  pub id : Text
  pub created_at : Text
  pub reason : Text
  pub devices : List Text
  pub links : List ObservedLink

pub record JobLinkResult : Type 0 where
  pub fingerprint : Text
  pub status : Text
  pub reason : Option Text

pub record JobSummary : Type 0 where
  pub id : Text
  pub created_at : Text
  pub scope : Text
  pub status : Text
  pub results : List JobLinkResult

pub record StoredState : Type 0 where
  pub profiles : List Profile
  pub active_profile_id : Option Text
  pub ignored_unmanaged : List Text
  pub applied_rule_ids : List Text
  pub snapshots : List Snapshot
  pub jobs : List JobSummary

abbrev pub max_snapshots : ℕ
max_snapshots = 20

abbrev pub max_jobs : ℕ
max_jobs = 50

unfoldable pub find_profile : List Profile → Option Text → Option Profile
find_profile [] id = none
find_profile (p ∷ ps) id = if some p.id == id then some p else find_profile ps id

-- `StoredState.active_profile`
unfoldable pub active_profile : StoredState → Option Profile
unfolding find_profile
active_profile s = find_profile s.profiles s.active_profile_id

unfoldable pub drop {ℓ} : {A : Type ℓ} → ℕ → List A → List A
drop zero xs = xs
drop (suc n) [] = []
drop (suc n) (x ∷ xs) = drop n xs

-- `xs[-n:]` for an `n` that is not zero
unfoldable pub last {ℓ} : {A : Type ℓ} → ℕ → List A → List A
unfolding drop
last n xs = drop (length xs - n) xs

-- `StoredState.with_snapshot`
unfoldable pub with_snapshot : StoredState → Snapshot → StoredState
unfolding last
with_snapshot s snapshot = record s {
  snapshots = last max_snapshots (s.snapshots ++ (snapshot ∷ []));
}

-- `StoredState.with_job`
unfoldable pub with_job : StoredState → JobSummary → StoredState
unfolding last
with_job s job = record s { jobs = last max_jobs (s.jobs ++ (job ∷ [])) }
