-- ===== src/Planner/Safety.antt =====
-- planner.py `build_plan`: what every item of a plan rests on.
use ha_device_links.Prelude.{
  Text, Dict, ℕ, List, [], ◌∷◌, map, Option, some, none, true, false, ◌||◌, ◌≡◌, refl, sym, ◌∙◌,
  Bool-cases, inl, inr, arith, keep, has, has-keys, contains, values, values-All, is_some, list_eq,
  nat_eq, pair_ord, list_ord, nat_ord, All, All-append, All-of_mem, Memᴰ, index_by, index_by-All,
  contains-keys-index_by, sort_by, sort_by-All, leb,
}
use ha_device_links.Models.{
  Link, ObservedLink, fingerprint, identity, Capabilities, Diagnostic, PlanItem,
}
use ha_device_links.Planner.Build.{build_plan, ordering}
use ha_device_links.Planner.Classify.{entry_fingerprint}
use ha_device_links.Planner.Adds.{
  planned_adds, adds_from, plan_add, add_item, blocked_item, remove_item, capacity_of, Group,
  count_used, used_of, link_group, unknown_group, group_full,
}
use ha_device_links.Planner.Classes.{is_removal, classify-eq-filtered}

module _ (desired : List Link) (observed : List ObservedLink) (capabilities : Capabilities)
    (remove_unmanaged : List Text) where
  -- The three kinds of item that a plan may hold, and what each rests on.
  pub data IsJustified : PlanItem → Type 0 where
    removal :
        (e : ObservedLink)
        → Memᴰ e observed
        → e.is_system ≡ false
        → contains (map fingerprint desired) (entry_fingerprint e) ≡ false
        → (is_some e.managed_by || contains remove_unmanaged (entry_fingerprint e)) ≡ true
        → IsJustified (remove_item e)
    addition :
        (l : Link) (capacity : ℕ)
        → Memᴰ l desired
        → contains (map entry_fingerprint observed) (fingerprint l) ≡ false
        → capacity_of capabilities (identity l.source) l.emitter_group ≡ some capacity
        → IsJustified (add_item l)
    no_room :
        (l : Link) (reason : Diagnostic)
        → Memᴰ l desired
        → contains (map entry_fingerprint observed) (fingerprint l) ≡ false
        → IsJustified (blocked_item l reason)

  abbrev wanted : Dict Text Link
  wanted = index_by fingerprint desired

  abbrev present : Dict Text ObservedLink
  present = index_by entry_fingerprint observed

  has-wanted : (f : Text) → has wanted f ≡ contains (map fingerprint desired) f
  has-wanted f = has-keys wanted f ∙ contains-keys-index_by fingerprint desired f

  has-present : (f : Text) → has present f ≡ contains (map entry_fingerprint observed) f
  has-present f = has-keys present f ∙ contains-keys-index_by entry_fingerprint observed f

  removals-IsJustified :
      (entries : List ObservedLink)
      → All (λ e. Memᴰ e observed) entries
      → All IsJustified (map remove_item (keep (is_removal wanted remove_unmanaged) entries))
  unfolding keep
  removals-IsJustified [] h = tt
  removals-IsJustified (e ∷ es) h = elim (Bool-cases (is_removal wanted remove_unmanaged e)) [
    | inl t ↦ rw t (
      removal e h.0 (ground arith) (sym (has-wanted (entry_fingerprint e)) ∙ ground arith)
          (ground arith),
      removals-IsJustified es h.1,
    )
    | inr f ↦ rw f (removals-IsJustified es h.1)
  ]

  abbrev IsEntry : Text × Link → Type 0
  IsEntry e = (e.0 ≡ fingerprint e.1) × Memᴰ e.1 desired

  wanted-IsEntry : All IsEntry wanted
  wanted-IsEntry = index_by-All fingerprint IsEntry desired (All-of_mem desired (λ l m. (refl, m)))

  present-mem : All (λ e. Memᴰ e observed) (values present)
  present-mem =
      values-All (λ e. Memᴰ e observed) present
        (index_by-All entry_fingerprint (λ e. Memᴰ e.1 observed) observed
          (All-of_mem observed (λ e m. m)))

  plan_add-IsJustified :
      (used : Dict Group ℕ) (l : Link) (capacity : Option ℕ)
      → capacity_of capabilities (identity l.source) l.emitter_group ≡ capacity
      → Memᴰ l desired
      → contains (map entry_fingerprint observed) (fingerprint l) ≡ false
      → IsJustified (plan_add capacity used l).1
  unfolding plan_add
  plan_add-IsJustified used l none c m n = no_room l (unknown_group l) m n
  plan_add-IsJustified used l (some capacity) c m n =
      elim (Bool-cases (leb capacity (used_of used (link_group l)))) [
        | inl full ↦ rw full (no_room l (group_full l (used_of used (link_group l)) capacity) m n)
        | inr room ↦ rw room (addition l capacity m n c)
      ]

  adds_from-IsJustified :
      (used : Dict Group ℕ) (entries : List (Text × Link))
      → All IsEntry entries
      → All IsJustified (adds_from present capabilities used entries)
  unfolding adds_from
  adds_from-IsJustified used [] h = tt
  adds_from-IsJustified used ((f, l) ∷ rest) h = elim (Bool-cases (has present f)) [
    | inl there ↦ rw there (adds_from-IsJustified used rest h.1)
    | inr missing ↦ rw missing (
      plan_add-IsJustified used l _ refl h.0.1
          (sym (has-present (fingerprint l)) ∙ rw (h.0.0) at missing),
      adds_from-IsJustified
          (plan_add (capacity_of capabilities (identity l.source) l.emitter_group) used l).0 rest
          h.1,
    )
  ]

  planned_adds-IsJustified :
      (survivors : List ObservedLink)
      → All IsJustified (planned_adds wanted present survivors capabilities)
  unfolding planned_adds
  planned_adds-IsJustified survivors =
      adds_from-IsJustified (count_used [] survivors) (sort_by (λ e. e.0) wanted)
        (sort_by-All (λ e. e.0) IsEntry wanted wanted-IsEntry)

  -- Every item of a plan is one of three: the removal of an observed entry that is no system link,
  -- that no rule wants, and that is owned or was selected; the addition of a desired link that no
  -- observed entry has, into a group of known capacity; or such a link, blocked with a reason.
  pub build_plan-IsJustified :
      (sha256 : Text → Text)
      → All IsJustified (build_plan sha256 desired observed capabilities remove_unmanaged).items
  unfolding build_plan
  build_plan-IsJustified sha256 = rw (classify-eq-filtered wanted remove_unmanaged present) (
      sort_by-All ordering IsJustified _ (
        All-append IsJustified _ _ (removals-IsJustified (values present) present-mem)
          (planned_adds-IsJustified (keep _ (values present)))))
