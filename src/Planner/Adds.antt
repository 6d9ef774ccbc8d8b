-- ===== src/Planner/Adds.antt =====
-- planner.py `_planned_adds`: the missing links against the capacities of their groups.
use ha_device_links.Prelude.{
  Text, text, Dict, ℕ, ◌+◌, List, [], ◌∷◌, ◌++◌, Option, some, none, leb, if◌then◌else◌, list_eq,
  nat_eq, pair_eq, list_ord, nat_ord, pair_ord, contains, get, has, put, sort_by, str,
}
use ha_device_links.Models.{
  Link, ObservedLink, identity, Emitter, Capabilities, Diagnostic, add, remove, blocked, PlanItem,
  plain_link, observed_link,
}

-- A group of a device: its identity and the name of the group.
abbrev pub Group : Type 0
Group = Text × Text

abbrev pub link_group : Link → Group
link_group l = (identity l.source, l.emitter_group)

abbrev pub used_of : Dict Group ℕ → Group → ℕ
used_of used g = elim (get used g) [ none ↦ 0 | some n ↦ n ]

unfoldable pub count_used : Dict Group ℕ → List ObservedLink → Dict Group ℕ
count_used used [] = used
count_used used (entry ∷ rest) =
    let g = link_group entry.link in count_used (put used g (used_of used g + 1)) rest

-- The loop over a device's controls in `_capacity_of`.
unfoldable pub capacity_in : List Emitter → Text → Option ℕ
capacity_in [] group = none
capacity_in (emitter ∷ rest) group =
    if contains emitter.group_ids group then some emitter.capacity else capacity_in rest group

-- `_capacity_of`
unfoldable pub capacity_of : Capabilities → Text → Text → Option ℕ
unfolding capacity_in
capacity_of capabilities device group = elim (get capabilities device) [
  | none ↦ none
  | some d ↦ capacity_in d.emitters group
]

abbrev pub diagnostic : Text → Dict Text Text → Diagnostic
diagnostic key placeholders = record { translation_key = key; placeholders = placeholders }

-- `_group_placeholders`
unfoldable pub group_placeholders : Link → Dict Text Text
group_placeholders l =
    (text "group", l.emitter_group)
    ∷ (text "device", l.source.name_at_authoring)
    ∷ (text "target", l.target.handle.name_at_authoring)
    ∷ []

abbrev pub add_item : Link → PlanItem
add_item l = record {
  op = add;
  device_identity = identity l.source;
  link = some (plain_link l);
  setting = none;
  reason = none;
}

-- `_blocked`
abbrev pub blocked_item : Link → Diagnostic → PlanItem
blocked_item l reason = record {
  op = blocked;
  device_identity = identity l.source;
  link = some (plain_link l);
  setting = none;
  reason = some reason;
}

abbrev pub remove_item : ObservedLink → PlanItem
remove_item e = record {
  op = remove;
  device_identity = identity e.link.source;
  link = some (observed_link e);
  setting = none;
  reason = none;
}

abbrev pub unknown_group : Link → Diagnostic
unknown_group l = diagnostic (text "unknown_group") (group_placeholders l)

abbrev pub group_full : Link → ℕ → ℕ → Diagnostic
group_full l used capacity =
    diagnostic (text "group_full")
      (group_placeholders l ++ ((text "used", str used) ∷ (text "capacity", str capacity) ∷ []))

-- One missing link, against the capacity of its group: its item, and the slots used after it.
unfoldable pub plan_add : Option ℕ → Dict Group ℕ → Link → Dict Group ℕ × PlanItem
plan_add none used l = (used, blocked_item l (unknown_group l))
plan_add (some capacity) used l =
    let n = used_of used (link_group l) in
    if leb capacity n
    then (used, blocked_item l (group_full l n capacity))
    else (put used (link_group l) (n + 1), add_item l)

-- The loop of `_planned_adds` over the wanted links.
unfoldable pub adds_from :
    Dict Text ObservedLink → Capabilities → Dict Group ℕ → List (Text × Link) → List PlanItem
unfolding plan_add
adds_from present capabilities used [] = []
adds_from present capabilities used ((f, l) ∷ rest) =
    let planned = plan_add (capacity_of capabilities (identity l.source) l.emitter_group) used l in
    let later = adds_from present capabilities planned.0 rest in
    let skipped = adds_from present capabilities used rest in
    if has present f then skipped else planned.1 ∷ later

-- `_planned_adds`; the wanted entries stand in the order of `sorted(wanted)`.
unfoldable pub planned_adds :
    Dict Text Link → Dict Text ObservedLink → List ObservedLink → Capabilities → List PlanItem
planned_adds wanted present survivors capabilities =
    adds_from present capabilities (count_used [] survivors) (sort_by (λ e. e.0) wanted)
