-- ===== src/Coordinator/Standing.antt =====
-- coordinator.py `_rule_state`: what each state of a rule says of its devices and its links.
use ha_device_links.Prelude.{
  Text, ◌≤◌, ◌<◌, List, [], ◌∷◌, Bool, true, false, not, ◌≡◌, ◌≢◌, ◌⊎◌, refl, sym, ◌∙◌, inl, inr,
  arith, Bool-cases, all, any, count, contains, contains→mem, mem→contains, length, list_eq, nat_eq,
  if◌then◌else◌, Memᴰ, head, tail, All,
}
use ha_device_links.Models.{Link, HybridLeg, fingerprint, Rule}
use ha_device_links.Coordinator.State.{Coordinator, is_available}
use ha_device_links.Coordinator.Plans.{links_of, hybrid_legs_of}
use ha_device_links.Coordinator.Scope.{IsAnswering, is_available-IsAnswering}
use ha_device_links.Coordinator.Drift.{
  RuleState, in_sync, drift, pending, blocked, disabled, unknown, rule_state, link_state,
  devices_of, without_links, present, rule_link_counts,
}
use ha_device_links.Coordinator.Presence.{
  IsHeld, IsAnswering-is_available, IsHeld-present, present-IsHeld,
}

count_le : {A : Type 0} (p : A → Bool) (xs : List A) → count p xs ≤ length xs
unfolding count
count_le p [] = omega arith
count_le p (x ∷ xs) = ground (arith, count_le p xs)

-- Either a test holds of all, and as many as there are pass it, or it fails for one, and fewer do.
all-cases :
    {A : Type 0} (p : A → Bool) (xs : List A)
    → ((all p xs ≡ true) × All (λ x. p x ≡ true) xs × (count p xs ≡ length xs))
      ⊎ ((all p xs ≡ false) × (count p xs < length xs) × ((x : A) × Memᴰ x xs × (p x ≡ false)))
unfolding all count
all-cases p [] = inl (refl, tt, refl)
all-cases p (x ∷ xs) = elim (Bool-cases (p x)) [
  | inr fails ↦ inr (rw fails refl, rw fails (omega (arith, count_le p xs)), (x, head refl, fails))
  | inl passes ↦ elim (all-cases p xs) [
    | inl (h, each, full) ↦
        inl (rw (passes, h) refl, (passes, each), rw passes (omega (arith, full)))
    | inr (h, few, (y, m, fails)) ↦
        inr (rw (passes, h) refl, rw passes (omega (arith, few)), (y, tail m, fails))
  ]
]

any-not : {A : Type 0} (p : A → Bool) (xs : List A) → any (λ x. not (p x)) xs ≡ not (all p xs)
unfolding any all
any-not p [] = refl
any-not p (x ∷ xs) = ground (arith, any-not p xs)

All-imp :
    {A : Type 0} {P Q : A → Type 0} (xs : List A) → ((a : A) → P a → Q a) → All P xs → All Q xs
All-imp [] f h = tt
All-imp (x ∷ xs) f h = (f x h.0, All-imp xs f h.1)

module _ (c : Coordinator) (rule : Rule) where
  -- The rule is enabled, and all of its devices were read and answer.
  abbrev pub IsSeen : Type 0
  IsSeen = (rule.enabled ≡ true) × All (IsAnswering c) (devices_of rule)

  -- Home Assistant may run legs, and runs one of the rule.
  abbrev pub IsExecuted : Type 0
  IsExecuted = (c.hybrid_allowed ≡ true) × (hybrid_legs_of c rule.id ≢ [])

  -- A link of the rule that no device holds; and fewer are counted as held than are wanted.
  abbrev pub LacksLink : Type 0
  LacksLink =
      ((l : Link) × Memᴰ l (links_of c rule.id) × (¬ IsHeld c l))
      × ((rule_link_counts c rule.id).1 < (rule_link_counts c rule.id).0)

  -- What each state says.
  pub data IsState : RuleState → Type 0 where
    off : rule.enabled ≡ false → IsState disabled
    unseen :
        (i : Text)
        → rule.enabled ≡ true
        → Memᴰ i (devices_of rule)
        → ¬ IsAnswering c i
        → IsState unknown
    executed : IsSeen → links_of c rule.id ≡ [] → IsExecuted → IsState in_sync
    nothing_to_do : IsSeen → links_of c rule.id ≡ [] → ¬ IsExecuted → IsState blocked
    held :
        IsSeen
        → links_of c rule.id ≢ []
        → All (IsHeld c) (links_of c rule.id)
        → (rule_link_counts c rule.id).1 ≡ (rule_link_counts c rule.id).0
        → IsState in_sync
    drifted : IsSeen → LacksLink → Memᴰ rule.id c.state.applied_rule_ids → IsState drift
    never_applied : IsSeen → LacksLink → (¬ Memᴰ rule.id c.state.applied_rule_ids) → IsState pending

  without_links-IsState :
      (allowed : Bool) (legs : List HybridLeg)
      → c.hybrid_allowed ≡ allowed
      → hybrid_legs_of c rule.id ≡ legs
      → IsSeen
      → links_of c rule.id ≡ []
      → IsState (without_links allowed legs)
  without_links-IsState true (leg ∷ legs) a e seen none_wanted =
      executed seen none_wanted (a, λ empty. cc (rw e at empty))
  without_links-IsState true [] a e seen none_wanted = nothing_to_do seen none_wanted (λ x. x.1 e)
  without_links-IsState false legs a e seen none_wanted =
      nothing_to_do seen none_wanted (λ x. cc (rw a at x.0))

  missing-IsState :
      IsSeen
      → LacksLink
      → IsState (if contains c.state.applied_rule_ids rule.id then drift else pending)
  missing-IsState seen lacks = elim (Bool-cases (contains c.state.applied_rule_ids rule.id)) [
    | inl applied ↦
        rw applied (drifted seen lacks (contains→mem c.state.applied_rule_ids rule.id applied))
    | inr never ↦ rw never (
        never_applied seen lacks
          (λ m. cc (sym never ∙ mem→contains c.state.applied_rule_ids rule.id m)))
  ]

  abbrev is_held : Link → Bool
  is_held l = contains (present c) (fingerprint l)

  link_state-IsState :
      (ls : List Link) → links_of c rule.id ≡ ls → IsSeen → IsState (link_state c rule.id ls)
  unfolding link_state rule_link_counts
  link_state-IsState [] e seen =
      without_links-IsState c.hybrid_allowed (hybrid_legs_of c rule.id) refl refl seen e
  link_state-IsState (l ∷ ls) e seen = elim (all-cases is_held (l ∷ ls)) [
    | inl (h, each, full) ↦ rw h (
        held seen (λ empty. cc (sym e ∙ empty)) (rw e (All-imp (l ∷ ls) (present-IsHeld c) each))
          (rw e full))
    | inr (h, few, (x, m, absent)) ↦ rw h (
        missing-IsState seen
          ((x, rw e m, λ there. cc (sym absent ∙ IsHeld-present c x there)), rw e few))
  ]

  -- The state of a rule, whatever is known: disabled says that it is off; unknown, that a device of
  -- it was not read or does not answer. All others say that it is on and that all its devices answer:
  -- blocked, that it has no link, and no leg that Home Assistant may run; in sync, that it has no link
  -- and such a leg, or that it has links and devices that answer hold them all, and that as many are
  -- counted; drift and pending, that none of these holds some link of it, that fewer are counted than
  -- are wanted, and that it was applied, or never was.
  pub rule_state-IsState : IsState (rule_state c rule)
  unfolding rule_state
  rule_state-IsState = elim (Bool-cases rule.enabled) [
    | inr idle ↦ simp idle (off idle)
    | inl on ↦ elim (all-cases (is_available c) (devices_of rule)) [
      | inr (h, _, (i, m, away)) ↦
          simp (on, any-not (is_available c) (devices_of rule), h)
            (unseen i on m (λ there. cc (sym away ∙ IsAnswering-is_available c i there)))
      | inl (h, each, _) ↦
          simp (on, any-not (is_available c) (devices_of rule), h)
            (link_state-IsState (links_of c rule.id) refl
              (on, All-imp (devices_of rule) (is_available-IsAnswering c) each))
    ]
  ]
