-- ===== src/Coordinator/Owned.antt =====
-- coordinator.py `_resolve_ownership`: every link that a device holds is owned by the first rule that
-- wants it, and no system link is owned.
use ha_device_links.Prelude.{
  Text, Dict, List, [], ◌∷◌, ◌++◌, map, append_assoc, append-nil, Option, some, none, Bool, true,
  false, ◌≡◌, refl, sym, ap, ◌∙◌, inl, inr, Bool-cases, Option-cases, if_intro, is_some, ◌||◌, All,
  All-append, All-map, All-of_mem, Memᴰ, map-mem, mem→contains, contains, get, has, get-put,
  set_default, ◌==◌, eq_iff, list_eq, nat_eq, if◌then◌else◌,
}
use ha_device_links.Models.{Capabilities, Link, ObservedLink, fingerprint, Rule, Result, ok, err}
use ha_device_links.Models.Validation.{IsRule, with_enabled_lem}
use ha_device_links.Compiler.{CompiledRule, compile_rule}
use ha_device_links.Compiler.Post.{Returns, Returns-map, Returns-bind, Returns-value}
use ha_device_links.Compiler.Expressed.{IsNetwork}
use ha_device_links.Compiler.Soundness.{compile_rule-IsExpressed}
use ha_device_links.Backends.{ObservedDevice}
use ha_device_links.Storage.{active_profile}
use ha_device_links.Coordinator.State.{Coordinator}
use ha_device_links.Coordinator.Ownership.{
  Ownership, claim, take_rule, compile_rules, no_ownership, rules_of, compile_active_profile,
  owned_by, owned, owned_device, with_ownership, resolve_ownership,
}

abbrev links_in : Result CompiledRule → List Link
links_in (ok r) = r.links
links_in (err e) = []

-- The links of a rule as if it were enabled.
abbrev pub links_if_enabled : Capabilities → Rule → List Link
links_if_enabled capabilities rule =
    links_in (compile_rule (record rule { enabled = true }) capabilities)

-- The first rule, enabled or not, that has a link with a fingerprint.
abbrev pub first_claim : Capabilities → List Rule → Text → Option Text
first_claim capabilities [] f = none
first_claim capabilities (rule ∷ rules) f =
    if contains (map fingerprint (links_if_enabled capabilities rule)) f
    then some rule.id
    else first_claim capabilities rules f

-- The links of the rules that are enabled.
abbrev pub enabled_links : Capabilities → List Rule → List Link
enabled_links capabilities [] = []
enabled_links capabilities (rule ∷ rules) =
    (if rule.enabled then links_if_enabled capabilities rule else [])
    ++ enabled_links capabilities rules

abbrev or_else : Option Text → Option Text → Option Text
or_else none o = o
or_else (some a) o = some a

or_else_assoc : (a b c : Option Text) → or_else (or_else a b) c ≡ or_else a (or_else b c)
or_else_assoc none b c = refl
or_else_assoc (some a) b c = refl

or_else-none : (a : Option Text) → or_else a none ≡ a
or_else-none none = refl
or_else-none (some a) = refl

get-set_default :
    (d : Dict Text Text) (k v j : Text)
    → get (set_default d k v) j ≡ or_else (get d j) (if k == j then some v else none)
unfolding set_default has
get-set_default d k v j = elim (Bool-cases (k == j)) [
  | inl same ↦
      let e : k ≡ j = (eq_iff k j).0 same in
      elim (Option-cases (get d k)) [
        | inl missing ↦ rw (missing, same, get-put d k j v, same, ← e, missing) refl
        | inr (a, there) ↦ rw (there, same, ← e, there) refl
      ]
  | inr other ↦ elim (Option-cases (get d k)) [
    | inl missing ↦ rw (missing, other, get-put d k j v, other) (sym (or_else-none (get d j)))
    | inr (a, there) ↦ rw (there, other) (sym (or_else-none (get d j)))
  ]
]

or_else-claims :
    (a b : Bool) (id : Text)
    → or_else (if a then some id else none) (if b then some id else none)
      ≡ (if a || b then some id else none)
or_else-claims true b id = refl
or_else-claims false b id = refl

get-claim :
    (owners : Dict Text Text) (id : Text) (ls : List Link) (f : Text)
    → get (claim owners id ls) f
      ≡ or_else (get owners f) (if contains (map fingerprint ls) f then some id else none)
unfolding claim contains
get-claim owners id [] f = sym (or_else-none (get owners f))
get-claim owners id (l ∷ ls) f =
    get-claim (set_default owners (fingerprint l) id) id ls f
    ∙ ap (λ o. or_else o (if contains (map fingerprint ls) f then some id else none))
        (get-set_default owners (fingerprint l) id f)
    ∙ or_else_assoc (get owners f) _ _
    ∙ ap (or_else (get owners f))
        (or_else-claims (fingerprint l == f) (contains (map fingerprint ls) f) id)

first_claim-cons :
    (b : Bool) (a o : Option Text) (id : Text)
    → or_else (or_else a (if b then some id else none)) o ≡ or_else a (if b then some id else o)
first_claim-cons b (some a) o id = refl
first_claim-cons true none o id = refl
first_claim-cons false none o id = refl

desired-cons :
    (b : Bool) (xs ls rest : List Link)
    → (if b then xs ++ ls else xs) ++ rest ≡ xs ++ ((if b then ls else []) ++ rest)
desired-cons true xs ls rest = append_assoc xs ls rest
desired-cons false xs ls rest = refl

module _ (capabilities : Capabilities) (network : IsNetwork capabilities) where
  -- What the rules add to what was there before them.
  abbrev Adds : Ownership → List Rule → Ownership → Type 0
  Adds o rules q =
      (q.desired ≡ o.desired ++ enabled_links capabilities rules)
      × ((f : Text) → get q.owners f ≡ or_else (get o.owners f) (first_claim capabilities rules f))

  compile_rules-Adds :
      (rules : List Rule) (o : Ownership)
      → All IsRule rules
      → Returns (Adds o rules) (compile_rules capabilities rules o)
  unfolding compile_rules take_rule
  compile_rules-Adds [] o h = (sym (append-nil o.desired), λ f. sym (or_else-none (get o.owners f)))
  compile_rules-Adds (rule ∷ rules) o h =
      let (r, e, _) =
        compile_rule-IsExpressed (record rule { enabled = true }) capabilities network in
      rw (with_enabled_lem rule true h.0, e)
        (Returns-map (λ q. Adds (take_rule rule r o) rules q) (λ q. Adds o (rule ∷ rules) q)
          (compile_rules capabilities rules (take_rule rule r o))
          (λ q k. rw e (
            k.0 ∙ desired-cons rule.enabled o.desired r.links (enabled_links capabilities rules),
            λ f.
                k.1 f
                ∙ ap (λ p. or_else p (first_claim capabilities rules f))
                    (get-claim o.owners rule.id r.links f)
                ∙ first_claim-cons (contains (map fingerprint r.links) f) (get o.owners f)
                    (first_claim capabilities rules f) rule.id,
          ))
          (compile_rules-Adds rules (take_rule rule r o) h.1))

module _ (capabilities : Capabilities) where
  -- Every link that an enabled rule wants is claimed.
  abbrev pub IsClaimed : List Rule → Link → Type 0
  IsClaimed rules l = is_some (first_claim capabilities rules (fingerprint l)) ≡ true

  cons-IsClaimed :
      (rule : Rule) (rules : List Rule) (l : Link) → IsClaimed rules l → IsClaimed (rule ∷ rules) l
  cons-IsClaimed rule rules l h =
      if_intro (λ (o : Option Text). is_some o ≡ true)
        (contains (map fingerprint (links_if_enabled capabilities rule)) (fingerprint l))
        (some rule.id) (first_claim capabilities rules (fingerprint l)) (λ t. refl) (λ f. h)

  own-IsClaimed :
      (rule : Rule) (rules : List Rule) (l : Link)
      → Memᴰ l (links_if_enabled capabilities rule)
      → IsClaimed (rule ∷ rules) l
  own-IsClaimed rule rules l m =
      rw
        (mem→contains (map fingerprint (links_if_enabled capabilities rule)) (fingerprint l)
          (map-mem fingerprint (links_if_enabled capabilities rule) m))
        refl

  enabled_links-IsClaimed :
      (rules : List Rule) → All (IsClaimed rules) (enabled_links capabilities rules)
  enabled_links-IsClaimed [] = tt
  enabled_links-IsClaimed (rule ∷ rules) =
      All-append (IsClaimed (rule ∷ rules)) _ (enabled_links capabilities rules)
        (if_intro (All (IsClaimed (rule ∷ rules))) rule.enabled (links_if_enabled capabilities rule)
          [] (λ t. All-of_mem (links_if_enabled capabilities rule) (own-IsClaimed rule rules))
          (λ f. tt))
        (All-map (enabled_links capabilities rules) (cons-IsClaimed rule rules)
          (enabled_links-IsClaimed rules))

  -- A link that a device holds: its owner is the first rule that has it, and a system link has none.
  abbrev pub IsOwned : List Rule → ObservedLink → Type 0
  IsOwned rules o =
      (o.link.rule_id
        ≡ (if o.is_system then none else first_claim capabilities rules (fingerprint o.link)))
      × (o.managed_by ≡ o.link.rule_id)

  fingerprint-rule_id :
      (l : Link) (owner : Option Text) → fingerprint (record l { rule_id = owner }) ≡ fingerprint l
  unfolding fingerprint
  fingerprint-rule_id l owner = refl

  owned-IsOwned :
      (rules : List Rule) (owners : Dict Text Text) (o : ObservedLink)
      → ((f : Text) → get owners f ≡ first_claim capabilities rules f)
      → IsOwned rules (owned owners o)
  unfolding owned
  owned-IsOwned rules owners o h =
      if_intro (IsOwned rules) o.is_system (owned_by none o)
        (owned_by (get owners (fingerprint o.link)) o) (λ system. (rw system refl, refl))
        (λ other. (
          rw (other, fingerprint-rule_id o.link (get owners (fingerprint o.link)))
              (h (fingerprint o.link)),
          refl,
        ))

  owned-AllOwned :
      (rules : List Rule) (owners : Dict Text Text) (os : List ObservedLink)
      → ((f : Text) → get owners f ≡ first_claim capabilities rules f)
      → All (IsOwned rules) (map (owned owners) os)
  owned-AllOwned rules owners [] h = tt
  owned-AllOwned rules owners (o ∷ os) h =
      (owned-IsOwned rules owners o h, owned-AllOwned rules owners os h)

  owned_device-AllOwned :
      (rules : List Rule) (owners : Dict Text Text) (observed : Dict Text ObservedDevice)
      → ((f : Text) → get owners f ≡ first_claim capabilities rules f)
      → All
          (λ (e : Text × ObservedDevice). All (IsOwned rules) e.1.links)
          (map (λ (e : Text × ObservedDevice). (e.0, owned_device owners e.1)) observed)
  unfolding owned_device
  owned_device-AllOwned rules owners [] h = tt
  owned_device-AllOwned rules owners ((i, d) ∷ rest) h =
      (owned-AllOwned rules owners d.links h, owned_device-AllOwned rules owners rest h)

-- What ownership has to be, by the active profile.
abbrev pub IsResolved : Coordinator → Coordinator → Type 0
IsResolved c d =
    (d.capabilities ≡ c.capabilities)
    × (d.state ≡ c.state)
    × (d.desired ≡ enabled_links c.capabilities (rules_of (active_profile c.state)))
    × All (IsClaimed c.capabilities (rules_of (active_profile c.state))) d.desired
    × All
        (λ (e : Text × ObservedDevice).
          All (IsOwned c.capabilities (rules_of (active_profile c.state))) e.1.links)
        d.observed

-- Over capabilities that are filed under their devices' identities and name no empty group, and for
-- rules that the constructor accepts, ownership is worked out without an exception, and changes
-- neither the capabilities nor the stored state: the desired links
-- are those of the enabled rules, in their order; each has a rule that claims it; and every link that
-- a device holds belongs to the first rule of the active profile, enabled or not, that has it, while
-- a system link belongs to none.
pub resolve_ownership-IsResolved :
    (c : Coordinator)
    → IsNetwork c.capabilities
    → All IsRule (rules_of (active_profile c.state))
    → (d : Coordinator) × (resolve_ownership c ≡ ok d) × IsResolved c d
unfolding resolve_ownership compile_active_profile with_ownership get
resolve_ownership-IsResolved c network rules =
    let P = rules_of (active_profile c.state) in
    Returns-value (IsResolved c) (resolve_ownership c) (
      Returns-bind (Adds c.capabilities network no_ownership P) (IsResolved c)
        (compile_rules c.capabilities P no_ownership) _
        (compile_rules-Adds c.capabilities network P no_ownership rules)
        (λ o k. (
          refl,
          refl,
          k.0,
          rw (k.0) (enabled_links-IsClaimed c.capabilities P),
          owned_device-AllOwned c.capabilities P o.owners c.observed k.1,
        )))
