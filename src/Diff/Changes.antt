-- ===== src/Diff/Changes.antt =====
-- diff.py: the changes of links between two sides, and `diff_against_links`.
use ha_device_links.Prelude.{
  Text, Dict, List, [], ◌∷◌, ◌++◌, Option, none, some, contains, get, keys, keep, dedup, sort,
  index_by, list_eq, nat_eq, list_ord, nat_ord, if◌then◌else◌,
}
use ha_device_links.Models.{
  Link, fingerprint, identity, Capabilities, Rule, Profile, Result, ok, ◌>>=◌,
}
use ha_device_links.Compiler.{compile_rule}

pub data ChangeKind : Type 0 where
  added removed changed unchanged : ChangeKind

pub record LinkChange : Type 0 where
  pub kind : ChangeKind
  pub link : Link

-- The body of the loop of `_link_changes`, for a fingerprint that is on one side at least.
unfoldable pub change_of : Option Link → Option Link → List LinkChange
change_of none none = []
change_of none (some r) = record { kind = added; link = r } ∷ []
change_of (some l) none = record { kind = removed; link = l } ∷ []
change_of (some l) (some r) = record { kind = unchanged; link = r } ∷ []

unfoldable pub changes_from : Dict Text Link → Dict Text Link → List Text → List LinkChange
unfolding change_of
changes_from left right [] = []
changes_from left right (f ∷ fs) =
    change_of (get left f) (get right f) ++ changes_from left right fs

-- `_link_changes`
unfoldable pub link_changes : List Link → List Link → List LinkChange
unfolding changes_from
link_changes before after =
    let left = index_by fingerprint before in
    let right = index_by fingerprint after in
    changes_from left right (sort (dedup (keys left ++ keys right)))

unfoldable pub links_of_rule : Capabilities → Rule → Result (List Link)
links_of_rule capabilities rule =
    if rule.enabled then (do r ← compile_rule rule capabilities; ok r.links) else ok []

-- The links of the enabled rules on the covered devices.
unfoldable pub wanted_links : List Text → Capabilities → List Rule → Result (List Link)
unfolding links_of_rule
wanted_links covered capabilities [] = ok []
wanted_links covered capabilities (rule ∷ rules) = do
  links ← links_of_rule capabilities rule
  rest ← wanted_links covered capabilities rules
  ok (keep (λ (l : Link). contains covered (identity l.source)) links ++ rest)

-- A `ProfileDiff` whose `rules` is empty.
pub record LinkDiff : Type 0 where
  pub links : List LinkChange
  pub devices : List Text

-- `diff_against_links`
unfoldable pub diff_against_links : Profile → List Link → Capabilities → List Text → Result LinkDiff
unfolding wanted_links link_changes
diff_against_links profile recorded capabilities devices = do
  wanted ← wanted_links devices capabilities profile.rules
  ok (record {
    links =
        link_changes (keep (λ (l : Link). contains devices (identity l.source)) recorded) wanted;
    devices = sort (dedup devices);
  })
