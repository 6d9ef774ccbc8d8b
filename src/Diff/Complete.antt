-- ===== src/Diff/Complete.antt =====
-- diff.py `_link_changes`: every link of either side, with what happens to it.
use ha_device_links.Prelude.{
  count, count-map, count-dedup, count-sort_by, if◌then◌else◌, ◌==◌, Text, Dict, List, [], ◌∷◌,
  ◌++◌, map, Option, none, some, Bool, true, false, ◌||◌, ◌≡◌, refl, arith, All, All-of_mem,
  All-append, mem-All, mem→contains, contains, contains-dedup, contains-sort_by, get, get-mem, has,
  has-keys, keys, index_by, index_by-All, contains-keys-index_by, dedup, sort, is_some, list_eq,
  nat_eq, list_ord, nat_ord,
}
use ha_device_links.Models.{Link, fingerprint}
use ha_device_links.Diff.Changes.{
  ChangeKind, LinkChange, added, removed, unchanged, change_of, changes_from, link_changes,
}

-- What happens to a link that stands before, after, or both.
abbrev pub kind_of : Bool → Bool → ChangeKind
kind_of false _ = added
kind_of true false = removed
kind_of true true = unchanged

map-append :
    (xs ys : List LinkChange)
    → map (λ (c : LinkChange). fingerprint c.link) (xs ++ ys)
      ≡ map (λ c. fingerprint c.link) xs ++ map (λ c. fingerprint c.link) ys
map-append [] ys = refl
map-append (x ∷ xs) ys = rw (map-append xs ys) refl

contains-append :
    (xs ys : List Text) (f : Text) → contains (xs ++ ys) f ≡ (contains xs f || contains ys f)
unfolding contains
contains-append [] ys f = refl
contains-append (x ∷ xs) ys f = ground (arith, contains-append xs ys f)

module _ (before after : List Link) where
  abbrev left : Dict Text Link
  left = index_by fingerprint before

  abbrev right : Dict Text Link
  right = index_by fingerprint after

  -- The change has the kind that the two sides give its link.
  abbrev pub IsChange : LinkChange → Type 0
  IsChange c =
      c.kind
      ≡ kind_of (contains (map fingerprint before) (fingerprint c.link))
          (contains (map fingerprint after) (fingerprint c.link))

  filed :
      (ls : List Link) (f : Text) (l : Link)
      → get (index_by fingerprint ls) f ≡ some l
      → fingerprint l ≡ f
  filed ls f l h =
      mem-All (λ e. fingerprint e.1 ≡ e.0) (index_by fingerprint ls)
        (index_by-All fingerprint (λ e. fingerprint e.1 ≡ e.0) ls (All-of_mem ls (λ l m. refl)))
        (get-mem (index_by fingerprint ls) f h)

  side :
      (ls : List Link) (f : Text)
      → contains (map fingerprint ls) f ≡ is_some (get (index_by fingerprint ls) f)
  unfolding has
  side ls f = cc (contains-keys-index_by fingerprint ls f, has-keys (index_by fingerprint ls) f)

  change_of-IsChange :
      (f : Text) (l r : Option Link)
      → get left f ≡ l
      → get right f ≡ r
      → All IsChange (change_of l r)
  unfolding change_of
  change_of-IsChange f none none p q = tt
  change_of-IsChange f none (some r) p q = (rw (filed after f r q, side before f, p) refl, tt)
  change_of-IsChange f (some l) none p q =
      (rw (filed before f l p, side before f, side after f, p, q) refl, tt)
  change_of-IsChange f (some l) (some r) p q =
      (rw (filed after f r q, side before f, side after f, p, q) refl, tt)

  changes_from-IsChange : (fs : List Text) → All IsChange (changes_from left right fs)
  unfolding changes_from
  changes_from-IsChange [] = tt
  changes_from-IsChange (f ∷ fs) =
      All-append IsChange (change_of (get left f) (get right f)) (changes_from left right fs)
        (change_of-IsChange f (get left f) (get right f) refl refl) (changes_from-IsChange fs)

  changed_fingerprint :
      (f : Text) (l r : Option Link)
      → get left f ≡ l
      → get right f ≡ r
      → (is_some l || is_some r) ≡ true
      → map (λ (c : LinkChange). fingerprint c.link) (change_of l r) ≡ f ∷ []
  unfolding change_of
  changed_fingerprint f none none p q h = cc
  changed_fingerprint f none (some r) p q h = rw (filed after f r q) refl
  changed_fingerprint f (some l) none p q h = rw (filed before f l p) refl
  changed_fingerprint f (some l) (some r) p q h = rw (filed after f r q) refl

  map-changes_from :
      (fs : List Text)
      → All (λ f. (is_some (get left f) || is_some (get right f)) ≡ true) fs
      → map (λ (c : LinkChange). fingerprint c.link) (changes_from left right fs) ≡ fs
  unfolding changes_from
  map-changes_from [] h = refl
  map-changes_from (f ∷ fs) h =
      rw
        (
          map-append (change_of (get left f) (get right f)) (changes_from left right fs),
          changed_fingerprint f (get left f) (get right f) refl refl h.0,
          map-changes_from fs h.1,
        )
        refl

  -- The fingerprints that the loop runs over.
  abbrev loop_keys : List Text
  loop_keys = sort (dedup (keys left ++ keys right))

  contains-keys_of_sides :
      (f : Text)
      → contains (keys left ++ keys right) f
        ≡ (contains (map fingerprint before) f || contains (map fingerprint after) f)
  contains-keys_of_sides f =
      rw
        (
          contains-append (keys left) (keys right) f,
          contains-keys-index_by fingerprint before f,
          contains-keys-index_by fingerprint after f,
        )
        refl

  loop_keys-All : All (λ f. (is_some (get left f) || is_some (get right f)) ≡ true) loop_keys
  unfolding sort
  loop_keys-All = All-of_mem loop_keys (λ f m.
      let listed : contains loop_keys f ≡ true = mem→contains loop_keys f m in
      rw (← side before f, ← side after f, ← contains-keys_of_sides f)
        (cc (
          listed,
          contains-sort_by (λ (x : Text). x) (dedup (keys left ++ keys right)) f,
          contains-dedup (keys left ++ keys right) f,
        )))

  count-changes :
      (f : Text)
      → count (λ (c : LinkChange). fingerprint c.link == f) (link_changes before after) ≡ (
          if contains (map fingerprint before) f || contains (map fingerprint after) f
          then 1
          else 0)
  unfolding link_changes sort
  count-changes f =
      rw
        (
          ← count-map (λ (c : LinkChange). fingerprint c.link) (changes_from left right loop_keys)
              f,
          map-changes_from loop_keys loop_keys-All,
          count-sort_by (λ (x : Text). x) (λ x. x == f) (dedup (keys left ++ keys right)),
          count-dedup (keys left ++ keys right) f,
          contains-keys_of_sides f,
        )
        refl

  -- The changes between two sides hold each fingerprint of either side once and no other, with a link
  -- that is added if it stands on the right side alone, removed if on the left alone, and else unchanged.
  pub link_changes-IsChange :
      All IsChange (link_changes before after)
      × ((f : Text)
          → count (λ (c : LinkChange). fingerprint c.link == f) (link_changes before after) ≡ (
              if contains (map fingerprint before) f || contains (map fingerprint after) f
              then 1
              else 0))
  unfolding link_changes
  link_changes-IsChange = (changes_from-IsChange loop_keys, count-changes)
