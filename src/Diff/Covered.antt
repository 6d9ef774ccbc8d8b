-- ===== src/Diff/Covered.antt =====
-- diff.py `diff_against_links`: only the covered devices take part, and nothing is raised.
use ha_device_links.Prelude.{
  Text, List, [], ◌∷◌, Option, none, some, true, ◌≡◌, refl, All, All-of_mem, All-append, mem-All,
  mem-keep, get, get-mem, keep, contains, index_by, index_by-All, list_eq, nat_eq, list_ord,
  nat_ord,
}
use ha_device_links.Models.{Link, fingerprint, identity, Capabilities, Rule, Profile, ok}
use ha_device_links.Compiler.Post.{Returns, Returns-bind, Returns-value, Returns-if}
use ha_device_links.Compiler.Expressed.{IsNetwork}
use ha_device_links.Compiler.Soundness.{compile_rule-IsExpressed}
use ha_device_links.Diff.Changes.{
  LinkChange, LinkDiff, change_of, changes_from, link_changes, links_of_rule, wanted_links,
  diff_against_links,
}

module _ (devices : List Text) where
  abbrev IsCovered : Link → Type 0
  IsCovered l = contains devices (identity l.source) ≡ true

  abbrev pub AreCovered : List LinkChange → Type 0
  AreCovered cs = All (λ (c : LinkChange). IsCovered c.link) cs

  keep-IsCovered :
      (ls : List Link)
      → All IsCovered (keep (λ (l : Link). contains devices (identity l.source)) ls)
  keep-IsCovered ls =
      All-of_mem (keep (λ (l : Link). contains devices (identity l.source)) ls)
        (λ l m. (mem-keep (λ (l : Link). contains devices (identity l.source)) ls m).1)

  get-IsCovered :
      (ls : List Link) (f : Text) (l : Link)
      → All IsCovered ls
      → get (index_by fingerprint ls) f ≡ some l
      → IsCovered l
  get-IsCovered ls f l h e =
      mem-All (λ e. IsCovered e.1) (index_by fingerprint ls)
        (index_by-All fingerprint (λ e. IsCovered e.1) ls h) (get-mem (index_by fingerprint ls) f e)

  module _ (before after : List Link) (b : All IsCovered before) (a : All IsCovered after) where
    change_of-AreCovered :
        (f : Text) (l r : Option Link)
        → get (index_by fingerprint before) f ≡ l
        → get (index_by fingerprint after) f ≡ r
        → AreCovered (change_of l r)
    unfolding change_of
    change_of-AreCovered f none none p q = tt
    change_of-AreCovered f none (some r) p q = (get-IsCovered after f r a q, tt)
    change_of-AreCovered f (some l) none p q = (get-IsCovered before f l b p, tt)
    change_of-AreCovered f (some l) (some r) p q = (get-IsCovered after f r a q, tt)

    changes_from-AreCovered :
        (fs : List Text)
        → AreCovered (changes_from (index_by fingerprint before) (index_by fingerprint after) fs)
    unfolding changes_from
    changes_from-AreCovered [] = tt
    changes_from-AreCovered (f ∷ fs) =
        All-append (λ (c : LinkChange). IsCovered c.link) (change_of _ _) _
          (change_of-AreCovered f _ _ refl refl) (changes_from-AreCovered fs)

    link_changes-AreCovered : AreCovered (link_changes before after)
    unfolding link_changes
    link_changes-AreCovered = changes_from-AreCovered _

  module _ (capabilities : Capabilities) (network : IsNetwork capabilities) where
    links_of_rule-Returns :
        (rule : Rule) → Returns (λ (ls : List Link). Unit {0}) (links_of_rule capabilities rule)
    unfolding links_of_rule
    links_of_rule-Returns rule =
        let (r, e, _) = compile_rule-IsExpressed rule capabilities network in
        Returns-if (λ (ls : List Link). Unit {0}) rule.enabled _ _ (rw e tt) tt

    wanted_links-IsCovered :
        (rules : List Rule) → Returns (All IsCovered) (wanted_links devices capabilities rules)
    unfolding wanted_links
    wanted_links-IsCovered [] = tt
    wanted_links-IsCovered (rule ∷ rules) =
        Returns-bind (λ ls. Unit {0}) (All IsCovered) (links_of_rule capabilities rule) _
          (links_of_rule-Returns rule)
          (λ ls _.
            Returns-bind (All IsCovered) (All IsCovered) (wanted_links devices capabilities rules) _
              (wanted_links-IsCovered rules)
              (λ rest h. All-append IsCovered _ rest (keep-IsCovered ls) h))

    -- Over capabilities that are filed under their devices' identities and name no empty group, a
    -- profile is compared with recorded links without an exception, and every change is of a link
    -- that is written to one of the devices that were recorded.
    pub diff_against_links-AreCovered :
        (profile : Profile) (recorded : List Link)
        → (d : LinkDiff) × (diff_against_links profile recorded capabilities devices ≡ ok d)
          × AreCovered d.links
    unfolding diff_against_links
    diff_against_links-AreCovered profile recorded =
        Returns-value (λ (d : LinkDiff). AreCovered d.links)
          (diff_against_links profile recorded capabilities devices)
          (Returns-bind (All IsCovered) (λ (d : LinkDiff). AreCovered d.links)
            (wanted_links devices capabilities profile.rules) _
            (wanted_links-IsCovered profile.rules)
            (λ wanted h. link_changes-AreCovered _ wanted (keep-IsCovered recorded) h))
