-- ===== src/Tests/Runs.antt =====
-- What the program does on the samples.
use ha_device_links.Prelude.{
  ℕ, ◌≡◌, refl, length, text, [], ◌∷◌, map, replace, join, str, sort, sort_by, insert_by, list_leq,
  pair_leq, list_beq, pair_beq, option_beq, keep, any, all, contains, dedup, minus, meet, get, has,
  put, keys, values, index_by, str_or_empty, subset,
}
use ha_device_links.Models.{
  Result, ok, err, add, remove, blocked, identity, backend_text, feature_text, kind_text,
  fingerprint, escaped, new_link, single_group_of, feature_discrete, kind_discrete,
  direction_discrete, template_discrete, mirror_discrete, diagnostic_identity, leg_identity,
  mirror_text, PlanItem,
}
use ha_device_links.Compiler.{
  compile_rule, CompiledRule, distinct, sorted_features, sorted_kinds, source_capabilities,
  find_emitter, hybrid_features, resolve, unavailable, resolved_actions, usable_targets,
  endpoint_for, add_links, compile_reverse, link_targets, compile_hybrid, check_semantics,
  compile_mirror, warn, refuse, result, feature_unavailable, reverse_receiver_endpoint,
}
use ha_device_links.Planner.{
  build_plan, classify, classify_entry, planned_adds, adds_from, count_used, capacity_of, ordering,
  token, token_parts, group_placeholders, ownership, shown,
}
use ha_device_links.Tests.Samples.{rule, network, desired_links, observed_links, digest}

program : Unit {0}
unfolding text replace join str sort sort_by insert_by list_leq pair_leq list_beq pair_beq
    option_beq keep any all contains dedup minus meet get has put keys values index_by str_or_empty
    subset identity backend_text feature_text kind_text fingerprint escaped new_link single_group_of
    feature_discrete kind_discrete direction_discrete template_discrete mirror_discrete
    diagnostic_identity leg_identity mirror_text
program = tt

unfoldable pub compiler : Unit {0}
unfolding program compile_rule distinct sorted_features sorted_kinds source_capabilities
    find_emitter hybrid_features resolve unavailable resolved_actions usable_targets endpoint_for
    add_links compile_reverse link_targets compile_hybrid check_semantics compile_mirror warn refuse
    result feature_unavailable reverse_receiver_endpoint
compiler = tt

unfoldable pub planner : Unit {0}
unfolding program build_plan classify classify_entry planned_adds adds_from count_used capacity_of
    ordering token token_parts group_placeholders ownership shown
planner = tt

link_count : Result CompiledRule → ℕ
link_count (ok r) = length r.links
link_count (err e) = 0

-- A two-way rule with two features and one target: four links.
compiled : link_count (compile_rule rule network) ≡ 4
unfolding compiler link_count
compiled = refl

-- The owned entry goes, one link is added, and the other finds its group full.
planned :
    map (λ (i : PlanItem). i.op) (build_plan digest desired_links observed_links network []).items
    ≡ remove ∷ add ∷ blocked ∷ []
unfolding planner
planned = refl
