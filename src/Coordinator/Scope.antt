-- ===== src/Coordinator/Scope.antt =====
-- coordinator.py `identities_in_scope`: what a device and a link in a scope are.
use ha_device_links.Prelude.{
  Text, List, [], ◌∷◌, Option, some, none, true, false, ◌≡◌, ◌⊎◌, refl, sym, ◌∙◌, inl, inr, All,
  mem-All, Memᴰ, head, tail, mem-append, mem-keep, contains→mem, mem→contains, contains,
  contains-sort_by, keys, meet, sort, Option-cases, Bool-cases, Dict, get, get-mem, has, map,
  mem-map, list_eq, nat_eq, list_ord, nat_ord,
}
use ha_device_links.Models.{
  identity, Link, ObservedLink, ItemLink, item_link, fingerprint, PlanItem,
}
use ha_device_links.Backends.{ObservedDevice}
use ha_device_links.Coordinator.State.{Coordinator, is_available}
use ha_device_links.Coordinator.Plans.{
  PlanScope, sources_of, available, narrowed, identities_in_scope, links_of, links_in, links_at,
  observed_at, is_claimed,
}

-- A device that was read, and that answered last.
abbrev pub IsAnswering : Coordinator → Text → Type 0
IsAnswering c i =
    (d : ObservedDevice) × (get c.observed i ≡ some d) × (contains c.unavailable i ≡ false)

-- A device that some link of some rule is written to.
abbrev pub IsWritten : Coordinator → List Text → Text → Type 0
IsWritten c ids i =
    (id : Text) × Memᴰ id ids × ((l : Link) × Memᴰ l (links_of c id) × (identity l.source ≡ i))

-- A device answers, and is the scope's, and one that the scope's rules write to.
abbrev pub IsInScope : Coordinator → Option PlanScope → Text → Type 0
IsInScope c none i = IsAnswering c i
IsInScope c (some scope) i =
    IsAnswering c i
    × ((scope.device_identities ≡ []) ⊎ Memᴰ i scope.device_identities)
    × ((scope.rule_ids ≡ []) ⊎ IsWritten c scope.rule_ids i)

-- A link of one of some rules, or of no rule and selected.
abbrev pub IsOfRules : List Text → List Text → Link → Type 0
IsOfRules ids selected l =
    ((id : Text) × (l.rule_id ≡ some id) × Memᴰ id ids)
    ⊎ ((l.rule_id ≡ none) × Memᴰ (fingerprint l) selected)

-- An item whose link belongs to a rule of the scope, or to no rule and was selected.
abbrev pub IsNarrowed : Option PlanScope → List Text → PlanItem → Type 0
IsNarrowed none selected item = Unit
IsNarrowed (some scope) selected item =
    (scope.rule_ids ≡ [])
    ⊎ ((l : ItemLink) × (item.link ≡ some l) × IsOfRules scope.rule_ids selected (item_link l))

-- What an adapter promises: the links that it reads of a device are written to that device.
abbrev pub AreFiled : Dict Text ObservedDevice → Type 0
AreFiled observed =
    All
      (λ (e : Text × ObservedDevice).
        All (λ (o : ObservedLink). identity o.link.source ≡ e.0) e.1.links)
      observed

pub is_available-IsAnswering :
    (c : Coordinator) (i : Text) → is_available c i ≡ true → IsAnswering c i
unfolding is_available has
is_available-IsAnswering c i h = elim (Option-cases (get c.observed i)) [
  | inl missing ↦ cc (rw missing at h)
  | inr (d, found) ↦ elim (Bool-cases (contains c.unavailable i)) [
    | inl away ↦ cc (rw (found, away) at h)
    | inr near ↦ (d, found, near)
  ]
]

mem-sources_of :
    (c : Coordinator) (ids : List Text) (i : Text) → Memᴰ i (sources_of c ids) → IsWritten c ids i
unfolding sources_of
mem-sources_of c [] i m = elim m [ ]
mem-sources_of c (id ∷ ids) i m =
    elim (mem-append (map (λ (l : Link). identity l.source) (links_of c id)) (sources_of c ids) m) [
      | inl here ↦
          let (l, n, e) = mem-map (λ (l : Link). identity l.source) (links_of c id) here in
          (id, head refl, (l, n, e))
      | inr there ↦ let (j, n, w) = mem-sources_of c ids i there in (j, tail n, w)
    ]

pub is_claimed-IsOfRules :
    (l : Link) (o : Option Text) (ids selected : List Text)
    → l.rule_id ≡ o
    → is_claimed o (fingerprint l) ids selected ≡ true
    → IsOfRules ids selected l
is_claimed-IsOfRules l none ids selected e h = inr (e, contains→mem selected (fingerprint l) h)
is_claimed-IsOfRules l (some id) ids selected e h = inl (id, e, contains→mem ids id h)

mem-narrowed :
    (xs is wanted : List Text) (i : Text)
    → Memᴰ i (narrowed xs is wanted)
    → Memᴰ i xs × ((is ≡ []) ⊎ Memᴰ i wanted)
unfolding meet
mem-narrowed xs [] wanted i m = (m, inl refl)
mem-narrowed xs (j ∷ js) wanted i m =
    let (a, b) = mem-keep (λ x. contains wanted x) xs m in (a, inr (contains→mem wanted i b))

sources_of-IsWritten :
    (c : Coordinator) (ids : List Text) (i : Text)
    → (ids ≡ []) ⊎ Memᴰ i (sources_of c ids)
    → (ids ≡ []) ⊎ IsWritten c ids i
sources_of-IsWritten c ids i (inl all) = inl all
sources_of-IsWritten c ids i (inr m) = inr (mem-sources_of c ids i m)

pub identities_in_scope-IsInScope :
    (c : Coordinator) (scope : Option PlanScope) (i : Text)
    → Memᴰ i (identities_in_scope c scope)
    → IsInScope c scope i
unfolding identities_in_scope
identities_in_scope-IsInScope c none i m =
    is_available-IsAnswering c i (mem-keep (is_available c) (keys c.observed) m).1
identities_in_scope-IsInScope c (some scope) i m =
    let (m1, rules) =
      mem-narrowed (narrowed (available c) scope.device_identities scope.device_identities)
        scope.rule_ids (sources_of c scope.rule_ids) i m in
    let (m2, devices) =
      mem-narrowed (available c) scope.device_identities scope.device_identities i m1 in
    (
      is_available-IsAnswering c i (mem-keep (is_available c) (keys c.observed) m2).1,
      devices,
      sources_of-IsWritten c scope.rule_ids i rules,
    )

links_in-filed :
    (c : Coordinator) (i : Text) (o : Option ObservedDevice)
    → AreFiled c.observed
    → get c.observed i ≡ o
    → All (λ (e : ObservedLink). identity e.link.source ≡ i) (links_in o)
links_in-filed c i none h e = tt
links_in-filed c i (some d) h e =
    mem-All
      (λ (e : Text × ObservedDevice).
        All (λ (o : ObservedLink). identity o.link.source ≡ e.0) e.1.links)
      c.observed h (get-mem c.observed i e)

pub mem-observed_at :
    (c : Coordinator) (is : List Text) (e : ObservedLink)
    → AreFiled c.observed
    → Memᴰ e (observed_at c is)
    → Memᴰ (identity e.link.source) is × Memᴰ e (links_at c (identity e.link.source))
unfolding observed_at
mem-observed_at c [] e h m = elim m [ ]
mem-observed_at c (i ∷ is) e h m = elim (mem-append (links_at c i) (observed_at c is) m) [
  | inl here ↦
      let same : identity e.link.source ≡ i =
        mem-All (λ (o : ObservedLink). identity o.link.source ≡ i) (links_at c i)
          (links_in-filed c i (get c.observed i) h refl) here in
      (head same, rw same here)
  | inr there ↦ let (k, n) = mem-observed_at c is e h there in (tail k, n)
]

pub mem-sort : (is : List Text) (i : Text) → Memᴰ i (sort is) → Memᴰ i is
unfolding sort
mem-sort is i m =
    contains→mem is i (sym (contains-sort_by (λ j. j) is i) ∙ mem→contains (sort is) i m)
