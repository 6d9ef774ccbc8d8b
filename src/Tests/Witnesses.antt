-- ===== src/Tests/Witnesses.antt =====
-- Each property at an input that meets its hypotheses.
use Prim.Native.Nat.{max}
use ha_device_links.Prelude.{
  ◌+◌, ◌≤◌, ◌≡◌, ◌↔◌, refl, [], ◌∷◌, map, some, none, false, All, Distinct, ◌==◌, ◌&&◌, keep, count,
  contains, ne_of_beq, list_eq, nat_eq, option_eq, values, index_by, join, if◌then◌else◌,
}
use ha_device_links.Models.{
  identity, fingerprint, leg_identity, escaped, ok, new_link, as_kwargs, new_rule, with_enabled,
  new_profile, Rule, Profile, PlanItem, Plan, HybridLeg, by_device, items_of, on_off, self_load,
}
use ha_device_links.Models.Escaping.{split, split-join}
use ha_device_links.Models.Identity.{
  SameWrite, SameLeg, identity-eq_iff, fingerprint-eq_iff, leg_identity-eq_iff,
}
use ha_device_links.Models.Validation.{
  IsLink, IsRule, new_link-IsLink, new_link_of_IsLink, new_link-as_kwargs, new_rule-eq_iff,
  new_profile-eq_iff, with_enabled_lem,
}
use ha_device_links.Models.Grouping.{items_of-by_device}
use ha_device_links.Planner.{build_plan, classify, entry_fingerprint, capacity_of, add_item, Group}
use ha_device_links.Planner.Classes.{filtered, classify-eq-filtered, is_removal, is_survivor}
use ha_device_links.Planner.Safety.{IsJustified, build_plan-IsJustified}
use ha_device_links.Planner.Sequence.{IsSequence, build_plan-IsSequence}
use ha_device_links.Planner.Capacity.{entry_in, is_add_in, build_plan-le_capacity}
use ha_device_links.Planner.Completeness.{
  is_addition_of, is_removal_of, count-additions, count-removable,
}
use ha_device_links.Compiler.{CompiledRule, compile_rule}
use ha_device_links.Compiler.Expressed.{IsNetwork, IsExpressed}
use ha_device_links.Compiler.Soundness.{compile_rule-IsExpressed}
use ha_device_links.Tests.Runs.{planner}
use ha_device_links.Tests.Samples.{
  switch, lamp, network, rule, link, moved, dimming, desired_links, observed_links, owned, digest,
}

pub network-IsNetwork : IsNetwork network
network-IsNetwork = record {
  keyed = (refl, (refl, tt));
  grouped = ((((λ h. cc), ((λ h. cc), tt)), tt), ((((λ h. cc), ((λ h. cc), tt)), tt), tt));
}

compile_rule-IsExpressed_example :
    (r : CompiledRule) × (compile_rule rule network ≡ ok r) × All (IsExpressed rule network) r.links
compile_rule-IsExpressed_example = compile_rule-IsExpressed rule network network-IsNetwork

build_plan-IsJustified_example :
    All
      (IsJustified desired_links observed_links network [])
      (build_plan digest desired_links observed_links network []).items
build_plan-IsJustified_example =
    build_plan-IsJustified desired_links observed_links network [] digest

build_plan-IsSequence_example :
    IsSequence (build_plan digest desired_links observed_links network []).items
build_plan-IsSequence_example = build_plan-IsSequence digest desired_links observed_links network []

capacity-known : capacity_of network (identity switch) (b'2' ∷ []) ≡ some 1
unfolding planner
capacity-known = refl

build_plan-le_capacity_example :
    let g : Group = (identity switch, b'2' ∷ []) in
    let stay =
      keep
        (is_survivor (index_by fingerprint desired_links) [])
        (values (index_by entry_fingerprint observed_links)) in
    count (entry_in g) stay
      + count (is_add_in g) (build_plan digest desired_links observed_links network []).items
    ≤ max (count (entry_in g) stay) 1
build_plan-le_capacity_example =
    build_plan-le_capacity digest desired_links observed_links network []
      (identity switch, b'2' ∷ []) 1 capacity-known

count-additions_example :
    count
      (is_addition_of (fingerprint link))
      (build_plan digest desired_links observed_links network []).items
    ≡ (if contains (map entry_fingerprint observed_links) (fingerprint link)
        then 0
        else if contains (map fingerprint desired_links) (fingerprint link)
        then 1
        else 0)
count-additions_example =
    count-additions digest desired_links observed_links network [] (fingerprint link)

count-removable_example :
    count
      (is_removal_of (entry_fingerprint owned))
      (build_plan digest desired_links observed_links network []).items
    ≡ count
        (λ e.
          entry_fingerprint e == entry_fingerprint owned
          && is_removal (index_by fingerprint desired_links) [] e)
        (values (index_by entry_fingerprint observed_links))
count-removable_example =
    count-removable digest desired_links observed_links network [] (entry_fingerprint owned)

classify-eq-filtered_example :
    classify (index_by fingerprint desired_links) (index_by entry_fingerprint observed_links) []
    ≡ filtered
        (index_by fingerprint desired_links)
        []
        (values (index_by entry_fingerprint observed_links))
classify-eq-filtered_example =
    classify-eq-filtered (index_by fingerprint desired_links) []
      (index_by entry_fingerprint observed_links)

fingerprint-eq_iff_example : (fingerprint link ≡ fingerprint moved) ↔ SameWrite link moved
fingerprint-eq_iff_example = fingerprint-eq_iff link moved

identity-eq_iff_example :
    (identity switch ≡ identity lamp)
    ↔ ((switch.backend ≡ lamp.backend) × (switch.protocol_id ≡ lamp.protocol_id))
identity-eq_iff_example = identity-eq_iff switch lamp

abbrev leg : HybridLeg
leg = record {
  rule_id = b'r' ∷ [];
  kind = self_load;
  source = switch;
  emitter_id = b'p' ∷ [];
  feature = on_off;
  target = record { handle = switch; endpoint = some 2 };
  scene_id = some 1;
  indicator_id = none;
}

leg_identity-eq_iff_example :
    (leg_identity leg ≡ leg_identity (record leg { rule_id = [] }))
    ↔ SameLeg leg (record leg { rule_id = [] })
leg_identity-eq_iff_example = leg_identity-eq_iff leg (record leg { rule_id = [] })

-- A separator and an escape inside the parts.
split-join_example :
    split (join b'|' (map escaped ((b'|' ∷ b'\\' ∷ []) ∷ [] ∷ []))) ≡ (b'|' ∷ b'\\' ∷ []) ∷ [] ∷ []
split-join_example = split-join (b'|' ∷ b'\\' ∷ []) ([] ∷ [])

link-IsLink : IsLink link
unfolding planner
link-IsLink = record {
  not_self = ne_of_beq (identity switch) (identity lamp) refl;
  has_group = λ h. cc;
}

new_link-IsLink_example : IsLink link
new_link-IsLink_example = new_link-IsLink link link (new_link_of_IsLink link link-IsLink)

new_link-as_kwargs_example : new_link (as_kwargs link) ≡ ok link
new_link-as_kwargs_example = new_link-as_kwargs link link-IsLink

new_rule-eq_iff_example : (new_rule rule ≡ ok rule) ↔ ((rule ≡ rule) × IsRule rule)
new_rule-eq_iff_example = new_rule-eq_iff rule rule

pub rule-IsRule : IsRule rule
unfolding planner
rule-IsRule = record {
  has_target = λ h. cc;
  has_feature = λ h. cc;
  one_sided = refl;
  distinct_targets = (refl, tt);
}

with_enabled_example : with_enabled rule false ≡ ok (record rule { enabled = false })
with_enabled_example = with_enabled_lem rule false rule-IsRule

abbrev profile : Profile
profile = record { id = b'd' ∷ []; name = []; rules = rule ∷ rule ∷ [] }

new_profile-eq_iff_example :
    (new_profile profile ≡ ok profile)
    ↔ ((profile ≡ profile) × Distinct (map (λ (r : Rule). r.id) profile.rules))
new_profile-eq_iff_example = new_profile-eq_iff profile profile

abbrev plan : Plan
plan = record {
  token = [];
  items = add_item link ∷ add_item (record link { source = lamp }) ∷ add_item dimming ∷ [];
  unmanaged = [];
  unchanged_count = 0;
}

items_of-by_device_example :
    items_of (by_device plan) (identity switch)
    ≡ keep (λ (i : PlanItem). i.device_identity == identity switch) plan.items
items_of-by_device_example = items_of-by_device plan (identity switch)
