-- ===== src/Coordinator/Ownership.antt =====
-- coordinator.py: what the active profile wants, and which rule owns which link.
use ha_device_links.Prelude.{
  Text, Dict, List, [], ◌∷◌, ◌++◌, map, Option, some, none, Bool, true, false, any, get, put,
  set_default, dedup, subset, ◌==◌, list_eq, nat_eq, if◌then◌else◌,
}
use ha_device_links.Models.{
  Capabilities, Link, ObservedLink, fingerprint, Rule, with_enabled, Profile, new_profile, Result,
  ok, ◌>>=◌,
}
use ha_device_links.Compiler.{CompiledRule, compile_rule}
use ha_device_links.Backends.{ObservedDevice}
use ha_device_links.Storage.{StoredState, active_profile}
use ha_device_links.Coordinator.State.{Coordinator}

-- What `_compile_active_profile` returns.
pub record Ownership : Type 0 where
  pub compiled : Dict Text CompiledRule
  pub owners : Dict Text Text
  pub desired : List Link

unfoldable pub claim : Dict Text Text → Text → List Link → Dict Text Text
claim owners id [] = owners
claim owners id (l ∷ ls) = claim (set_default owners (fingerprint l) id) id ls

unfoldable pub take_rule : Rule → CompiledRule → Ownership → Ownership
unfolding claim
take_rule rule r o = record {
  compiled = put o.compiled rule.id r;
  owners = claim o.owners rule.id r.links;
  desired = if rule.enabled then o.desired ++ r.links else o.desired;
}

-- The loop of `_compile_active_profile` over the rules
unfoldable pub compile_rules : Capabilities → List Rule → Ownership → Result Ownership
unfolding take_rule
compile_rules capabilities [] o = ok o
compile_rules capabilities (rule ∷ rules) o = do
  enabled ← with_enabled rule true
  r ← compile_rule enabled capabilities
  compile_rules capabilities rules (take_rule rule r o)

abbrev pub no_ownership : Ownership
no_ownership = record { compiled = []; owners = []; desired = [] }

abbrev pub rules_of : Option Profile → List Rule
rules_of none = []
rules_of (some p) = p.rules

-- `_compile_active_profile`
unfoldable pub compile_active_profile : Coordinator → Result Ownership
unfolding compile_rules
compile_active_profile c =
    compile_rules c.capabilities (rules_of (active_profile c.state)) no_ownership

abbrev pub owned_by : Option Text → ObservedLink → ObservedLink
owned_by owner o = record o { link = record o.link { rule_id = owner }; managed_by = owner }

-- `_owned`
unfoldable pub owned : Dict Text Text → ObservedLink → ObservedLink
owned owners o =
    if o.is_system then owned_by none o else owned_by (get owners (fingerprint o.link)) o

unfoldable pub owned_device : Dict Text Text → ObservedDevice → ObservedDevice
unfolding owned
owned_device owners d = record d { links = map (owned owners) d.links }

unfoldable pub with_ownership : Coordinator → Ownership → Coordinator
unfolding owned_device
with_ownership c o = record c {
  compiled = o.compiled;
  owners = o.owners;
  desired = o.desired;
  observed = map (λ (e : Text × ObservedDevice). (e.0, owned_device o.owners e.1)) c.observed;
}

-- `_resolve_ownership`, less the listeners that it tells
unfoldable pub resolve_ownership : Coordinator → Result Coordinator
unfolding with_ownership compile_active_profile
resolve_ownership c = do o ← compile_active_profile c; ok (with_ownership c o)

-- `async_update_state`, less the save that it schedules
unfoldable pub async_update_state : StoredState → Coordinator → Result Coordinator
unfolding resolve_ownership
async_update_state s c = resolve_ownership (record c { state = s })

-- `async_activate_profile`, with whether there is such a profile
unfoldable pub async_activate_profile : Text → Coordinator → Result (Coordinator × Bool)
unfolding async_update_state
async_activate_profile id c =
    if any (λ (p : Profile). p.id == id) c.state.profiles
    then (do
      d ← async_update_state (record c.state { active_profile_id = some id }) c
      ok (d, true))
    else ok (c, false)

unfoldable pub switch_rule : Text → Bool → List Rule → Result (List Rule)
switch_rule id enabled [] = ok []
switch_rule id enabled (rule ∷ rules) = do
  first ← (if rule.id == id then with_enabled rule enabled else ok rule)
  rest ← switch_rule id enabled rules
  ok (first ∷ rest)

abbrev pub replace_profile : Profile → List Profile → List Profile
replace_profile updated ps = map (λ (p : Profile). if p.id == updated.id then updated else p) ps

unfoldable pub switch_in : Text → Bool → Coordinator → Option Profile → Result (Coordinator × Bool)
unfolding switch_rule async_update_state
switch_in id enabled c none = ok (c, false)
switch_in id enabled c (some p) =
    if any (λ (r : Rule). r.id == id) p.rules
    then (do
      rules ← switch_rule id enabled p.rules
      updated ← new_profile (record p { rules = rules })
      d ←
          async_update_state
            (record c.state { profiles = replace_profile updated c.state.profiles }) c
      ok (d, true))
    else ok (c, false)

-- `async_set_rule_enabled`, with whether there is such a rule
unfoldable pub async_set_rule_enabled : Text → Bool → Coordinator → Result (Coordinator × Bool)
unfolding switch_in
async_set_rule_enabled id enabled c = switch_in id enabled c (active_profile c.state)

-- `async_note_applied`
unfoldable pub async_note_applied : List Text → Coordinator → Result Coordinator
unfolding async_update_state
async_note_applied ids c =
    if subset ids c.state.applied_rule_ids
    then ok c
    else async_update_state
        (record c.state { applied_rule_ids = dedup (c.state.applied_rule_ids ++ ids) }) c
