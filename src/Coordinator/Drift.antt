-- ===== src/Coordinator/Drift.antt =====
-- coordinator.py: how each rule stands, and which writes still wait for a device to wake.
use ha_device_links.Prelude.{
  Text, text, Dict, ℕ, List, [], ◌∷◌, ◌++◌, map, Bool, true, not, all, any, count, contains, put,
  keep, length, ◌==◌, list_eq, nat_eq, if◌then◌else◌,
}
use ha_device_links.Models.{identity, Link, ObservedLink, fingerprint, HybridLeg, Rule, RuleTarget}
use ha_device_links.Backends.{ObservedDevice}
use ha_device_links.Storage.{JobSummary, JobLinkResult, active_profile}
use ha_device_links.Coordinator.State.{Coordinator, is_available}
use ha_device_links.Coordinator.Plans.{links_of, hybrid_legs_of}
use ha_device_links.Coordinator.Ownership.{rules_of}

pub data RuleState : Type 0 where
  in_sync drift pending blocked disabled unknown : RuleState

-- `_present`
unfoldable pub present_from : Coordinator → Dict Text ObservedDevice → List Text
unfolding is_available
present_from c [] = []
present_from c ((i, d) ∷ rest) =
    let later = present_from c rest in
    if is_available c i
    then map (λ (o : ObservedLink). fingerprint o.link) d.links ++ later
    else later

unfoldable pub present : Coordinator → List Text
unfolding present_from
present c = present_from c c.observed

-- `rule_link_counts`
unfoldable pub rule_link_counts : Coordinator → Text → ℕ × ℕ
unfolding present
rule_link_counts c id = (
  length (links_of c id),
  count (λ (l : Link). contains (present c) (fingerprint l)) (links_of c id),
)

abbrev pub devices_of : Rule → List Text
devices_of rule =
    identity rule.source.device ∷ map (λ (t : RuleTarget). identity t.device) rule.targets

-- A rule that is enabled, on available devices, but writes no link.
abbrev pub without_links : Bool → List HybridLeg → RuleState
without_links true (_ ∷ _) = in_sync
without_links _ _ = blocked

unfoldable pub link_state : Coordinator → Text → List Link → RuleState
unfolding present
link_state c id [] = without_links c.hybrid_allowed (hybrid_legs_of c id)
link_state c id (l ∷ ls) =
    if all (λ (l : Link). contains (present c) (fingerprint l)) (l ∷ ls)
    then in_sync
    else if contains c.state.applied_rule_ids id
    then drift
    else pending

-- `_rule_state`
unfoldable pub rule_state : Coordinator → Rule → RuleState
unfolding link_state
rule_state c rule =
    if not rule.enabled
    then disabled
    else if any (λ i. not (is_available c i)) (devices_of rule)
    then unknown
    else link_state c rule.id (links_of c rule.id)

unfoldable pub states_from : Coordinator → Dict Text RuleState → List Rule → Dict Text RuleState
unfolding rule_state
states_from c d [] = d
states_from c d (rule ∷ rules) = states_from c (put d rule.id (rule_state c rule)) rules

-- `drift_state`
unfoldable pub drift_state : Coordinator → Dict Text RuleState
unfolding states_from
drift_state c = states_from c [] (rules_of (active_profile c.state))

unfoldable pub note_results : Dict Text Bool → List JobLinkResult → Dict Text Bool
note_results latest [] = latest
note_results latest (r ∷ rs) =
    note_results (put latest r.fingerprint (r.status == text "pending_wakeup")) rs

unfoldable pub note_jobs : Dict Text Bool → List JobSummary → Dict Text Bool
unfolding note_results
note_jobs latest [] = latest
note_jobs latest (j ∷ js) = note_jobs (note_results latest j.results) js

-- `pending_link_fingerprints`
unfoldable pub pending_link_fingerprints : Coordinator → List Text
unfolding note_jobs
pending_link_fingerprints c =
    map (λ (e : Text × Bool). e.0) (keep (λ (e : Text × Bool). e.1) (note_jobs [] c.state.jobs))
