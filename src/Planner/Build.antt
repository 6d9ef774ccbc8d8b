-- ===== src/Planner/Build.antt =====
-- planner.py `build_plan`: the order of the items, the token, and the plan. SHA-256 is not part of the
-- program: `sha256` stands for the hexadecimal digest of the encoded text.
use ha_device_links.Prelude.{
  Text, text, Dict, ℕ, List, [], ◌∷◌, ◌++◌, map, Option, some, none, if◌then◌else◌, list_eq, nat_eq,
  pair_eq, list_ord, nat_ord, pair_ord, is_some, keys, values, index_by, sort, sort_by, dedup, meet,
  str, join,
}
use ha_device_links.Models.{
  Link, ObservedLink, fingerprint, Capabilities, PlanOp, add, remove, set_param, blocked, pending,
  PlanItem, Plan, ItemLink, item_link,
}
use ha_device_links.Planner.Classify.{entry_fingerprint, classify}
use ha_device_links.Planner.Adds.{Group, link_group, capacity_of, remove_item, planned_adds}

unfoldable pub op_order : PlanOp → ℕ
op_order remove = 0
op_order set_param = 1
op_order add = 2
op_order pending = 3
op_order blocked = 4

abbrev pub item_fingerprint : Option ItemLink → Text
item_fingerprint none = []
item_fingerprint (some l) = fingerprint (item_link l)

-- `_ordering`
unfoldable pub ordering : PlanItem → Text × (ℕ × Text)
unfolding op_order
ordering item = (item.device_identity, (op_order item.op, item_fingerprint item.link))

-- `_ownership`
unfoldable pub ownership : ObservedLink → Text
ownership e =
    if e.is_system
    then text "system"
    else if is_some e.managed_by
    then text "managed"
    else text "unmanaged"

-- An optional number as an f-string shows it.
unfoldable pub shown : Option ℕ → Text
shown none = text "None"
shown (some n) = str n

-- The parts that `_token` hashes.
unfoldable pub token_parts :
    Dict Text Link → Dict Text ObservedLink → List Text → Capabilities → List Text
token_parts wanted present remove_unmanaged capabilities =
    let groups = sort (
      dedup (
        map link_group (values wanted)
        ++ map (λ (e : ObservedLink). link_group e.link) (values present))) in
    map (λ f. text "desired" ++ (31 ∷ f)) (sort (keys wanted))
    ++ (map (λ (e : Text × ObservedLink). text "observed" ++ (31 ∷ (e.0 ++ (31 ∷ ownership e.1))))
          (sort_by (λ e. e.0) present)
        ++ (map (λ f. text "remove" ++ (31 ∷ f))
              (sort (dedup (meet remove_unmanaged (keys present))))
            ++ map
                (λ (g : Group).
                  text "capacity"
                  ++ (31
                      ∷ (g.0 ++ (31 ∷ (g.1 ++ (31 ∷ shown (capacity_of capabilities g.0 g.1)))))))
                groups))

module _ (sha256 : Text → Text) where
  -- `_token`
  unfoldable pub token : Dict Text Link → Dict Text ObservedLink → List Text → Capabilities → Text
  token wanted present remove_unmanaged capabilities =
      sha256 (join 30 (token_parts wanted present remove_unmanaged capabilities))

  unfoldable pub build_plan : List Link → List ObservedLink → Capabilities → List Text → Plan
  build_plan desired observed capabilities remove_unmanaged =
      let wanted = index_by fingerprint desired in
      let present = index_by entry_fingerprint observed in
      let state = classify wanted present remove_unmanaged in
      record {
        token = token wanted present remove_unmanaged capabilities;
        items = sort_by ordering (
            map remove_item state.removals
            ++ planned_adds wanted present state.survivors capabilities);
        unmanaged = sort_by entry_fingerprint state.unmanaged;
        unchanged_count = state.unchanged;
      }
