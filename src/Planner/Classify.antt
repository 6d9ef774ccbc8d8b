-- ===== src/Planner/Classify.antt =====
-- planner.py `_classify`: what each observed entry turns out to be.
use ha_device_links.Prelude.{
  Text, Dict, ℕ, ◌+◌, List, [], ◌∷◌, ◌++◌, if◌then◌else◌, list_eq, nat_eq, pair_eq, list_ord,
  nat_ord, pair_ord, contains, is_some, has, values,
}
use ha_device_links.Models.{Link, ObservedLink, fingerprint}

pub record Classification : Type 0 where
  pub removals : List ObservedLink
  pub unmanaged : List ObservedLink
  pub survivors : List ObservedLink
  pub unchanged : ℕ

abbrev pub entry_fingerprint : ObservedLink → Text
entry_fingerprint e = fingerprint e.link

-- The body of the loop of `_classify`.
unfoldable pub classify_entry :
    Dict Text Link → List Text → Classification → ObservedLink → Classification
classify_entry wanted remove_unmanaged state entry =
    if entry.is_system
    then record state { survivors = state.survivors ++ (entry ∷ []) }
    else if has wanted (entry_fingerprint entry)
    then record state {
      unchanged = state.unchanged + 1;
      survivors = state.survivors ++ (entry ∷ []);
    }
    else if is_some entry.managed_by
    then record state { removals = state.removals ++ (entry ∷ []) }
    else if contains remove_unmanaged (entry_fingerprint entry)
    then record state {
      unmanaged = state.unmanaged ++ (entry ∷ []);
      removals = state.removals ++ (entry ∷ []);
    }
    else record state {
      unmanaged = state.unmanaged ++ (entry ∷ []);
      survivors = state.survivors ++ (entry ∷ []);
    }

unfoldable pub classify_from :
    Dict Text Link → List Text → Classification → List ObservedLink → Classification
classify_from wanted remove_unmanaged state [] = state
classify_from wanted remove_unmanaged state (entry ∷ rest) =
    classify_from wanted remove_unmanaged (classify_entry wanted remove_unmanaged state entry) rest

abbrev pub nothing_classified : Classification
nothing_classified = record { removals = []; unmanaged = []; survivors = []; unchanged = 0 }

-- `_classify`
unfoldable pub classify : Dict Text Link → Dict Text ObservedLink → List Text → Classification
unfolding classify_from
classify wanted present remove_unmanaged =
    classify_from wanted remove_unmanaged nothing_classified (values present)
