-- ===== src/Planner/Classes.antt =====
-- planner.py `_classify`: the loop against filters that say what each kind of entry is.
use ha_device_links.Prelude.{
  Text, Dict, ◌+◌, List, [], ◌∷◌, ◌++◌, Bool, not, ◌&&◌, ◌||◌, ◌≡◌, ◌∙◌, arith, keep, count, has,
  contains, values, is_some, list_eq, nat_eq, append_assoc, append-nil,
}
use ha_device_links.Models.{Link, ObservedLink}
use ha_device_links.Planner.Classify.{
  Classification, classify, classify_entry, classify_from, nothing_classified, entry_fingerprint,
}

module _ (wanted : Dict Text Link) (remove_unmanaged : List Text) where
  -- Neither a lifeline nor wanted by a rule.
  abbrev pub is_leftover : ObservedLink → Bool
  is_leftover e = not e.is_system && not (has wanted (entry_fingerprint e))

  -- What may be taken off: a leftover that is owned, or that the user selected.
  abbrev pub is_removal : ObservedLink → Bool
  is_removal e =
      is_leftover e && (is_some e.managed_by || contains remove_unmanaged (entry_fingerprint e))

  abbrev pub is_unmanaged : ObservedLink → Bool
  is_unmanaged e = is_leftover e && not (is_some e.managed_by)

  abbrev pub is_unchanged : ObservedLink → Bool
  is_unchanged e = not e.is_system && has wanted (entry_fingerprint e)

  abbrev pub is_survivor : ObservedLink → Bool
  is_survivor e = not (is_removal e)

  abbrev pub filtered : List ObservedLink → Classification
  filtered entries = record {
    removals = keep is_removal entries;
    unmanaged = keep is_unmanaged entries;
    survivors = keep is_survivor entries;
    unchanged = count is_unchanged entries;
  }

  abbrev joined : Classification → Classification → Classification
  joined s t = record {
    removals = s.removals ++ t.removals;
    unmanaged = s.unmanaged ++ t.unmanaged;
    survivors = s.survivors ++ t.survivors;
    unchanged = s.unchanged + t.unchanged;
  }

  classify_entry-joined :
      (state : Classification) (entry : ObservedLink) (rest : List ObservedLink)
      → joined (classify_entry wanted remove_unmanaged state entry) (filtered rest)
        ≡ joined state (filtered (entry ∷ rest))
  unfolding classify_entry keep count
  classify_entry-joined state entry rest = ground (
    arith,
    append_assoc state.removals (entry ∷ []) (keep is_removal rest),
    append_assoc state.unmanaged (entry ∷ []) (keep is_unmanaged rest),
    append_assoc state.survivors (entry ∷ []) (keep is_survivor rest),
  )

  classify_from-joined :
      (state : Classification) (entries : List ObservedLink)
      → classify_from wanted remove_unmanaged state entries ≡ joined state (filtered entries)
  unfolding classify_from keep count
  classify_from-joined state [] =
      ground
        (arith, append-nil state.removals, append-nil state.unmanaged, append-nil state.survivors)
  classify_from-joined state (entry ∷ rest) =
      classify_from-joined (classify_entry wanted remove_unmanaged state entry) rest
      ∙ classify_entry-joined state entry rest

  -- The classification is the four filters of the entries: in particular no system link and no
  -- wanted link is ever among the removals, and an entry stays exactly when it is not removed.
  pub classify-eq-filtered :
      (present : Dict Text ObservedLink)
      → classify wanted present remove_unmanaged ≡ filtered (values present)
  unfolding classify keep count
  classify-eq-filtered present =
      ground (arith, classify_from-joined nothing_classified (values present))
