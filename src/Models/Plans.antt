-- ===== src/Models/Plans.antt =====
-- models.py: diagnostics, setting writes, hybrid legs, plan items and plans.
use ha_device_links.Prelude.{
  Text, Dict, ℕ, List, [], ◌∷◌, ◌++◌, map, Option, none, some, Bool, true, false, join,
  str_or_empty, sort, list_eq, nat_eq, pair_eq, list_ord, nat_ord, pair_ord, get, put,
}
use ha_device_links.Models.Enums.{Feature, HybridKind, PlanOp, feature_text, kind_text}
use ha_device_links.Models.Devices.{DeviceHandle, LinkTarget, identity}
use ha_device_links.Models.Links.{Link, ObservedLink, escaped}

pub record Diagnostic : Type 0 where
  pub translation_key : Text
  pub placeholders : Dict Text Text

-- `Diagnostic.identity`
unfoldable pub diagnostic_identity : Diagnostic → Text × List (Text × Text)
diagnostic_identity d = (d.translation_key, sort d.placeholders)

pub record SettingWrite : Type 0 where
  pub device : DeviceHandle
  pub capability : Text
  pub parameter : ℕ
  pub bitmask : Option ℕ
  pub value : ℕ

pub record HybridLeg : Type 0 where
  pub rule_id : Text
  pub kind : HybridKind
  pub source : DeviceHandle
  pub emitter_id : Text
  pub feature : Feature
  pub target : LinkTarget
  pub scene_id : Option ℕ
  pub indicator_id : Option ℕ

abbrev pub leg_parts : HybridLeg → List Text
leg_parts l =
    kind_text l.kind
    ∷ identity l.source
    ∷ l.emitter_id
    ∷ feature_text l.feature
    ∷ identity l.target.handle
    ∷ str_or_empty l.target.endpoint
    ∷ []

-- `HybridLeg.identity`
unfoldable pub leg_identity : HybridLeg → Text
leg_identity l = join b'|' (map escaped (leg_parts l))

-- `Link | ObservedLink`
pub data ItemLink : Type 0 where
  plain_link : Link → ItemLink
  observed_link : ObservedLink → ItemLink

abbrev pub item_link : ItemLink → Link
item_link (plain_link l) = l
item_link (observed_link o) = o.link

pub record PlanItem : Type 0 where
  pub op : PlanOp
  pub device_identity : Text
  pub link : Option ItemLink
  pub setting : Option SettingWrite
  pub reason : Option Diagnostic

pub record Plan : Type 0 where
  pub token : Text
  pub items : List PlanItem
  pub unmanaged : List ObservedLink
  pub unchanged_count : ℕ

-- `Plan.is_empty`
unfoldable pub plan_is_empty : Plan → Bool
plan_is_empty p = elim p.items [ [] ↦ true | _ ∷ _ ↦ false ]

abbrev pub items_of : Dict Text (List PlanItem) → Text → List PlanItem
items_of grouped device = elim (get grouped device) [ none ↦ [] | some items ↦ items ]

-- `grouped.setdefault(item.device_identity, []).append(item)` for each item
unfoldable pub group_items : Dict Text (List PlanItem) → List PlanItem → Dict Text (List PlanItem)
group_items grouped [] = grouped
group_items grouped (item ∷ rest) =
    let device = item.device_identity in
    group_items (put grouped device (items_of grouped device ++ (item ∷ []))) rest

unfoldable pub by_device : Plan → Dict Text (List PlanItem)
unfolding group_items
by_device p = group_items [] p.items
