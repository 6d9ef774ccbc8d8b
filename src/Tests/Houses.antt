-- ===== src/Tests/Houses.antt =====
-- A house with one rule, and the results on the coordinator at it.
use ha_device_links.Prelude.{
  text, Dict, List, [], ◌∷◌, ◌≡◌, refl, Option, some, none, All, any, contains, get, option_beq,
  list_beq, list_eq, nat_eq,
}
use ha_device_links.Models.{Backend, zwave, identity, fingerprint, ok, PlanItem}
use ha_device_links.Compiler.{nothing}
use ha_device_links.Storage.{JobSummary, JobLinkResult, active_profile, find_profile}
use ha_device_links.Coordinator.{
  Coordinator, HoldEvent, hold, let_go, change, flush, Board, happen_all, resolve_ownership,
  Listing, listed, lost, seen, read_all, refresh_all, PlanScope, async_plan, rule_state,
  pending_link_fingerprints,
}
use ha_device_links.Coordinator.Held.{IsExact, outstanding, happen_all-IsExact}
use ha_device_links.Coordinator.Armed.{IsArmed, happen_all-IsArmed}
use ha_device_links.Coordinator.Owned.{IsResolved, resolve_ownership-IsResolved}
use ha_device_links.Coordinator.Refreshed.{IsReady, IsListing, refresh_all-IsResolved}
use ha_device_links.Coordinator.Scope.{AreFiled, IsNarrowed}
use ha_device_links.Coordinator.Scoped.{IsPlanned, async_plan-IsPlanned}
use ha_device_links.Coordinator.Standing.{IsState, rule_state-IsState}
use ha_device_links.Coordinator.Counted.{
  last_result, all_results, waits, contains-pending_link_fingerprints,
}
use ha_device_links.Tests.Samples.{
  switch, lamp, network, rule, link, digest, capabilities_of_device,
}
use ha_device_links.Tests.Witnesses.{network-IsNetwork, rule-IsRule}
use ha_device_links.Tests.Diffs.{home}
use ha_device_links.Tests.Jobs.{known, switch_read, empty_state}

abbrev woken : JobLinkResult
woken = record { fingerprint = fingerprint link; status = text "pending_wakeup"; reason = none }

abbrev night : JobSummary
night = record { id = text "night"; created_at = []; scope = []; status = []; results = woken ∷ [] }

abbrev house : Coordinator
house = record known {
  capabilities = network;
  state = record empty_state {
    profiles = home ∷ [];
    active_profile_id = some home.id;
    jobs = night ∷ [];
  };
}

abbrev quiet : Board
quiet = record { coordinator = house; holds = [] }

-- A device is held twice, changes, and is let go once, twice at that.
abbrev evening : List HoldEvent
evening =
    hold (text "a" ∷ text "a" ∷ [])
    ∷ hold (text "a" ∷ [])
    ∷ change (text "a")
    ∷ let_go 1
    ∷ let_go 1
    ∷ flush
    ∷ []

quiet-IsExact : IsExact quiet
unfolding outstanding get
quiet-IsExact i = refl

happen_all-IsExact_example : IsExact (happen_all quiet evening)
happen_all-IsExact_example = happen_all-IsExact quiet evening quiet-IsExact

happen_all-IsArmed_example : IsArmed (happen_all quiet evening).coordinator
unfolding any
happen_all-IsArmed_example = happen_all-IsArmed quiet evening (λ due. cc due)

house-IsReady : IsReady house
unfolding active_profile find_profile option_beq list_beq
house-IsReady = (network-IsNetwork, (rule-IsRule, tt))

resolve_ownership-IsResolved_example :
    (d : Coordinator) × (resolve_ownership house ≡ ok d) × IsResolved house d
resolve_ownership-IsResolved_example =
    resolve_ownership-IsResolved house house-IsReady.0 house-IsReady.1

abbrev answers : Dict Backend Listing
answers =
    (zwave, listed ((switch, seen (capabilities_of_device switch) switch_read) ∷ []))
    ∷ (zwave, lost (text "TimeoutError"))
    ∷ []

answers-AreListings : All (λ (e : Backend × Listing). IsListing e.1) answers
answers-AreListings = (((refl, (((λ h. cc h), ((λ h. cc h), tt)), tt)), tt), (tt, tt))

refresh_all-IsResolved_example :
    (d : Coordinator) × (refresh_all answers house ≡ ok d)
    × IsResolved (read_all answers house) d
    × IsReady d
refresh_all-IsResolved_example =
    refresh_all-IsResolved answers house answers-AreListings house-IsReady

abbrev here_only : Option PlanScope
here_only = some (record { rule_ids = rule.id ∷ []; device_identities = identity switch ∷ [] })

house-AreFiled : AreFiled house.observed
house-AreFiled = ((refl, (refl, (refl, tt))), tt)

async_plan-IsPlanned_example :
    All
      (λ (item : PlanItem).
        IsPlanned house here_only [] (some (link ∷ [])) item × IsNarrowed here_only [] item)
      (async_plan digest house here_only [] (some (link ∷ []))).items
async_plan-IsPlanned_example =
    async_plan-IsPlanned digest house here_only [] (some (link ∷ [])) house-AreFiled

contains-pending_link_fingerprints_example :
    contains (pending_link_fingerprints house) (fingerprint link)
    ≡ waits (last_result (all_results (night ∷ [])) (fingerprint link))
contains-pending_link_fingerprints_example =
    contains-pending_link_fingerprints house (fingerprint link)

abbrev watched : Coordinator
watched = record house {
  observed =
      (identity switch, switch_read)
      ∷ (identity lamp, record switch_read { handle = lamp; links = [] })
      ∷ [];
  compiled = (rule.id, record nothing { links = link ∷ [] }) ∷ [];
}

rule_state-IsState_example : IsState watched rule (rule_state watched rule)
rule_state-IsState_example = rule_state-IsState watched rule
