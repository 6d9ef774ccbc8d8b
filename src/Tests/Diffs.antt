-- ===== src/Tests/Diffs.antt =====
-- The results on differences, at the samples.
use ha_device_links.Prelude.{
  Text, ◌≡◌, [], ◌∷◌, map, All, count, contains, ◌==◌, ◌||◌, list_eq, nat_eq, if◌then◌else◌,
}
use ha_device_links.Models.{Profile, fingerprint, identity, ok}
use ha_device_links.Diff.{LinkChange, LinkDiff, link_changes, diff_against_links}
use ha_device_links.Diff.Complete.{IsChange, link_changes-IsChange}
use ha_device_links.Diff.Covered.{AreCovered, diff_against_links-AreCovered}
use ha_device_links.Tests.Samples.{switch, network, rule, link, dimming}
use ha_device_links.Tests.Witnesses.{network-IsNetwork}

link_changes-IsChange_example :
    All
      (IsChange (link ∷ []) (link ∷ dimming ∷ []))
      (link_changes (link ∷ []) (link ∷ dimming ∷ []))
    × ((f : Text)
        → count
            (λ (c : LinkChange). fingerprint c.link == f)
            (link_changes (link ∷ []) (link ∷ dimming ∷ []))
          ≡ (if contains (map fingerprint (link ∷ [])) f
                || contains (map fingerprint (link ∷ dimming ∷ [])) f
              then 1
              else 0))
link_changes-IsChange_example = link_changes-IsChange (link ∷ []) (link ∷ dimming ∷ [])

abbrev pub home : Profile
home = record { id = b'h' ∷ []; name = []; rules = rule ∷ [] }

diff_against_links-AreCovered_example :
    (d : LinkDiff) × (diff_against_links home (link ∷ []) network (identity switch ∷ []) ≡ ok d)
    × AreCovered (identity switch ∷ []) d.links
diff_against_links-AreCovered_example =
    diff_against_links-AreCovered (identity switch ∷ []) network network-IsNetwork home (link ∷ [])
