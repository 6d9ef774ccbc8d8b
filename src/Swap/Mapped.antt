-- ===== src/Swap/Mapped.antt =====
-- swap.py `emitters_used` and `_map_emitter`: each control in use has its mapping.
use ha_device_links.Prelude.{
  Text, Dict, List, [], ◌∷◌, ◌++◌, map, Option, none, some, true, ◌≡◌, refl, inl, inr, arith,
  Bool-cases, Memᴰ, head, tail, contains, contains-map-sort_by, get, keys, put, contains-keys-put,
  sort_by, list_eq, nat_eq, list_ord, nat_ord, ◌==◌, eq_refl,
}
use ha_device_links.Models.{Feature, Emitter, DeviceCapabilities, identity, Rule}
use ha_device_links.Swap.Types.{EmitterMapping}
use ha_device_links.Swap.Mapping.{
  features_of, emitters_used_from, emitters_used, map_covering, map_first, mapping, map_emitter,
}
use ha_device_links.Swap.Propose.{map_emitters}

map_covering-old :
    (old : Text) (needed : List Feature) (es : List Emitter)
    → (map_covering old needed es).old_emitter_id ≡ old
unfolding map_covering mapping
map_covering-old old needed [] = refl
map_covering-old old needed (e ∷ []) = refl
map_covering-old old needed (e ∷ f ∷ es) = refl

map_first-old :
    (old : Text) (needed : List Feature) (es : List Emitter) (choice same : Option Emitter)
    → (map_first old needed es choice same).old_emitter_id ≡ old
unfolding map_first mapping
map_first-old old needed es (some e) same = refl
map_first-old old needed es none (some e) = refl
map_first-old old needed es none none = map_covering-old old _ _

map_emitter-old :
    (old : Text) (needed : List Feature) (d : DeviceCapabilities) (choice : Option Text)
    → (map_emitter old needed d choice).old_emitter_id ≡ old
unfolding map_emitter
map_emitter-old old needed d choice = map_first-old old needed d.emitters _ _

map-map_emitters :
    (d : DeviceCapabilities) (chosen : Dict Text Text) (used : List (Text × List Feature))
    → map
        (λ (m : EmitterMapping). m.old_emitter_id)
        (map (λ (u : Text × List Feature). map_emitter u.0 u.1 d (get chosen u.0)) used)
      ≡ map (λ u. u.0) used
map-map_emitters d chosen [] = refl
map-map_emitters d chosen (u ∷ used) =
    rw (map_emitter-old u.0 u.1 d (get chosen u.0), map-map_emitters d chosen used) refl

keys-map :
    (used : Dict Text (List Feature)) → map (λ (u : Text × List Feature). u.0) used ≡ keys used
unfolding keys
keys-map [] = refl
keys-map ((k, v) ∷ used) = rw (keys-map used) refl

-- The mappings are those of the controls in use.
contains-map_emitters :
    (d : DeviceCapabilities) (chosen : Dict Text Text) (used : Dict Text (List Feature)) (id : Text)
    → contains (map (λ (m : EmitterMapping). m.old_emitter_id) (map_emitters d chosen used)) id
      ≡ contains (keys used) id
unfolding map_emitters
contains-map_emitters d chosen used id =
    rw
      (
        map-map_emitters d chosen (sort_by (λ u. u.0) used),
        contains-map-sort_by (λ (u : Text × List Feature). u.0) (λ (u : Text × List Feature). u.0)
            used id,
        keys-map used,
      )
      refl

module _ (device : Text) where
  emitters_used_from-keeps :
      (used : Dict Text (List Feature)) (rules : List Rule) (id : Text)
      → contains (keys used) id ≡ true
      → contains (keys (emitters_used_from used rules device)) id ≡ true
  unfolding emitters_used_from
  emitters_used_from-keeps used [] id h = h
  emitters_used_from-keeps used (rule ∷ rules) id h =
      elim (Bool-cases (identity rule.source.device == device)) [
        | inl own ↦
            let k = rule.source.emitter_id in
            let fs = features_of (get used k) ++ rule.features in
            rw own (
              emitters_used_from-keeps (put used k fs) rules id
                (rw (contains-keys-put used k id fs) (ground (arith, h))))
        | inr other ↦ rw other (emitters_used_from-keeps used rules id h)
      ]

  emitters_used_from-mem :
      (used : Dict Text (List Feature)) {rule : Rule} (rules : List Rule)
      → Memᴰ rule rules
      → (identity rule.source.device == device) ≡ true
      → contains (keys (emitters_used_from used rules device)) rule.source.emitter_id ≡ true
  unfolding emitters_used_from
  emitters_used_from-mem used [] m h = elim m [ ]
  emitters_used_from-mem used (r ∷ rules) (head e) h = rw e (
      let k = r.source.emitter_id in
      let fs = features_of (get used k) ++ r.features in
      let own : (identity r.source.device == device) ≡ true = rw (← e) h in
      rw own (
        emitters_used_from-keeps (put used k fs) rules k
          (rw (contains-keys-put used k k fs, eq_refl k) refl)))
  emitters_used_from-mem used (r ∷ rules) (tail m) h =
      elim (Bool-cases (identity r.source.device == device)) [
        | inl own ↦ rw own (
            emitters_used_from-mem
              (put used r.source.emitter_id
                (features_of (get used r.source.emitter_id) ++ r.features))
              rules m h)
        | inr other ↦ rw other (emitters_used_from-mem used rules m h)
      ]

  -- Each control that a rule drives the device from has its mapping.
  pub map_emitters-used :
      (d : DeviceCapabilities) (chosen : Dict Text Text) {rule : Rule} (rules : List Rule)
      → Memᴰ rule rules
      → (identity rule.source.device == device) ≡ true
      → contains
          (map
            (λ (m : EmitterMapping). m.old_emitter_id)
            (map_emitters d chosen (emitters_used rules device)))
          rule.source.emitter_id
        ≡ true
  unfolding emitters_used
  map_emitters-used d chosen {rule} rules m h =
      rw
        (contains-map_emitters d chosen (emitters_used_from [] rules device) rule.source.emitter_id)
        (emitters_used_from-mem [] rules m h)
