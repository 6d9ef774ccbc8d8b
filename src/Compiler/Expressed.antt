-- ===== src/Compiler/Expressed.antt =====
-- compiler.py: what a compiled link stands for, and the devices and controls that a rule finds.
use ha_device_links.Prelude.{
  Text, Dict, List, [], ◌∷◌, map, Option, some, none, Bool, true, false, ◌&&◌, ◌≡◌, ◌≢◌, ◌⊎◌, refl,
  sym, inl, inr, arith, Bool-cases, All, All-of_mem, mem-All, Memᴰ, head, tail, get, get-mem, keys,
  contains, mem→contains, keep-All, dedup, dedup-All, put, keys-put-All, sort_by-All, minus, ◌==◌,
  list_eq, nat_eq, list_ord, nat_ord, if◌then◌else◌,
}
use ha_device_links.Models.{
  Feature, two_way, HybridKind, feature_eq, kind_eq, identity, Emitter, DeviceCapabilities,
  Capabilities, Link, Rule, on_off, on_only, off_only, button_led, status_report, feature_text,
}
use ha_device_links.Compiler.State.{Compilation, sorted_features}
use ha_device_links.Compiler.Legs.{Leg, leg_link}
use ha_device_links.Compiler.Find.{
  source_capabilities, find_emitter, emitter_named, hybrid_features, resolve,
}

-- The capabilities are filed under the identity of their device, and no control names an empty group.
abbrev pub HasGroups : DeviceCapabilities → Type 0
HasGroups d = All (λ (e : Emitter). All (λ (a : Feature × Text). a.1 ≢ []) e.actions) d.emitters

pub record IsNetwork (capabilities : Capabilities) : Type 0 where
  pub keyed : All (λ (e : Text × DeviceCapabilities). identity e.1.handle ≡ e.0) capabilities
  pub grouped : All (λ (e : Text × DeviceCapabilities). HasGroups e.1) capabilities

-- A device that the capabilities know under its own identity, reachable, with named groups.
pub record IsKnown (capabilities : Capabilities) (d : DeviceCapabilities) : Type 0 where
  pub filed : get capabilities (identity d.handle) ≡ some d
  pub near : d.is_long_range ≡ false
  pub groups : HasGroups d

pub IsKnown-of_get :
    (capabilities : Capabilities) (device : Text) (d : DeviceCapabilities)
    → IsNetwork capabilities
    → get capabilities device ≡ some d
    → d.is_long_range ≡ false
    → IsKnown capabilities d × (identity d.handle ≡ device)
IsKnown-of_get capabilities device d n found near =
    let m = get-mem capabilities device found in
    let key : identity d.handle ≡ device =
      mem-All (λ e. identity e.1.handle ≡ e.0) capabilities n.keyed m in
    (
      record {
        filed = rw key found;
        near = near;
        groups = mem-All (λ e. HasGroups e.1) capabilities n.grouped m;
      },
      key,
    )

-- One direction of a rule: its own, or the way back of a two-way rule.
abbrev pub IsForward : Rule → Leg → Type 0
IsForward rule leg =
    (identity leg.writer.handle ≡ identity rule.source.device)
    × (leg.emitter.emitter_id ≡ rule.source.emitter_id)
    × contains (map (λ t. identity t.device) rule.targets) (identity leg.receiver.handle) ≡ true

abbrev pub IsReverse : Rule → Leg → Type 0
IsReverse rule leg =
    (rule.direction ≡ two_way)
    × (identity leg.receiver.handle ≡ identity rule.source.device)
    × contains (map (λ t. identity t.device) rule.targets) (identity leg.writer.handle) ≡ true

-- A leg between two known devices that are not one.
pub record IsLeg (rule : Rule) (capabilities : Capabilities) (leg : Leg) : Type 0 where
  pub writer_known : IsKnown capabilities leg.writer
  pub receiver_known : IsKnown capabilities leg.receiver
  pub control : Memᴰ leg.emitter leg.writer.emitters
  pub apart : identity leg.writer.handle ≢ identity leg.receiver.handle
  pub side : IsForward rule leg ⊎ IsReverse rule leg

-- What a compiled link stands for.
pub data IsExpressed (rule : Rule) (capabilities : Capabilities) : Link → Type 0 where
  expressed :
      (leg : Leg) (f : Feature) (group : Text)
      → IsLeg rule capabilities leg
      → contains rule.features f ≡ true
      → contains leg.receiver.receivable f ≡ true
      → get leg.emitter.actions f ≡ some group
      → IsExpressed rule capabilities (
          leg_link rule leg f
            (if leg.emitter.supports_endpoint_targets then leg.receiver_endpoint else none)
            group)

pub source_capabilities_lem :
    (rule : Rule) (capabilities : Capabilities) (c : Compilation) (d : DeviceCapabilities)
    → (source_capabilities rule capabilities c).1 ≡ some d
    → (get capabilities (identity rule.source.device) ≡ some d) × (d.is_long_range ≡ false)
unfolding source_capabilities
source_capabilities_lem rule capabilities c d h = ground arith

emitter_named_lem :
    (es : List Emitter) (id : Text) (e : Emitter)
    → emitter_named es id ≡ some e
    → Memᴰ e es × ((e.emitter_id == id) ≡ true)
unfolding emitter_named
emitter_named_lem [] id e h = cc
emitter_named_lem (d ∷ ds) id e h = elim (Bool-cases (d.emitter_id == id)) [
  | inl same ↦ let p : d ≡ e = (cc (rw same at h)) in (head (sym p), rw (← p) same)
  | inr other ↦ let (m, q) = emitter_named_lem ds id e (rw other at h) in (tail m, q)
]

pub find_emitter_lem :
    (rule : Rule) (source : DeviceCapabilities) (c : Compilation) (e : Emitter)
    → (find_emitter rule source c).1 ≡ some e
    → Memᴰ e source.emitters × ((e.emitter_id == rule.source.emitter_id) ≡ true)
unfolding find_emitter
find_emitter_lem rule source c e h =
    emitter_named_lem source.emitters rule.source.emitter_id e (ground arith)

put_if-All :
    (rule : Rule) (a : Bool) (f : Feature) (d : Dict Feature HybridKind) (k : HybridKind)
    → All (λ g. contains rule.features g ≡ true) (keys d)
    → All
        (λ g. contains rule.features g ≡ true)
        (keys (if a && contains rule.features f then put d f k else d))
put_if-All rule false f d k h = h
put_if-All rule true f d k h = elim (Bool-cases (contains rule.features f)) [
  | inl wanted ↦ rw wanted (keys-put-All (λ g. contains rule.features g ≡ true) d f k wanted h)
  | inr other ↦ rw other h
]

-- The features that a hybrid leg takes over are features of the rule.
pub hybrid_features-wanted :
    (rule : Rule) → All (λ f. contains rule.features f ≡ true) (keys (hybrid_features rule))
unfolding hybrid_features
hybrid_features-wanted rule =
    put_if-All rule _ status_report _ button_led (
      put_if-All rule _ on_off _ off_only (put_if-All rule _ on_off [] on_only (unfold keys in tt)))

pub sorted_features-All :
    (P : Feature → Type 0) (fs : List Feature) → All P fs → All P (sorted_features fs)
unfolding sorted_features
sorted_features-All P fs h = sort_by-All feature_text P (dedup fs) (dedup-All P fs h)

pub minus-wanted :
    (rule : Rule) (taken : List Feature)
    → All (λ f. contains rule.features f ≡ true) (minus rule.features taken)
unfolding minus
minus-wanted rule taken =
    keep-All (λ f. contains rule.features f ≡ true) _ rule.features
      (All-of_mem rule.features (λ f m. mem→contains rule.features f m))

-- What is resolved is wanted, and the control has its group.
pub resolve-All :
    (P : Feature → Type 0) (e : Emitter) (fs : List Feature)
    → All P fs
    → All (λ f. P f × ((group : Text) × (get e.actions f ≡ some group))) (keys (resolve e fs))
unfolding resolve keys
resolve-All P e [] h = tt
resolve-All P e (f ∷ fs) h = resolve_cons (resolve-All P e fs h.1) (get e.actions f) refl
  where
    resolve_cons :
        All (λ f. P f × ((group : Text) × (get e.actions f ≡ some group))) (keys (resolve e fs))
        → (o : Option Text) → get e.actions f ≡ o
        → All
            (λ f. P f × ((group : Text) × (get e.actions f ≡ some group)))
            (keys (elim o as (λ x. Dict Feature Text) [
              | none ↦ resolve e fs
              | some group ↦ (f, group) ∷ resolve e fs
            ]))
    resolve_cons ih none missing = ih
    resolve_cons ih (some group) found = ((h.0, (group, found)), ih)
