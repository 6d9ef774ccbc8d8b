-- ===== src/Models/Grouping.antt =====
-- models.py `Plan.by_device`: the groups against a filter of the plan's items.
use ha_device_links.Prelude.{
  Text, Dict, List, [], ◌∷◌, ◌++◌, ◌≡◌, sym, ◌∙◌, ap, Bool-cases, inl, inr, arith, keep, get,
  get-put, put, ◌==◌, list_eq, nat_eq, eq_iff, append_assoc, append-nil, if◌then◌else◌,
}
use ha_device_links.Models.Plans.{PlanItem, Plan, by_device, group_items, items_of}

items_of-put :
    (grouped : Dict Text (List PlanItem)) (k device : Text) (items : List PlanItem)
    → items_of (put grouped k items) device
      ≡ (if k == device then items else items_of grouped device)
items_of-put grouped k device items = ground (arith, get-put grouped k device items)

-- One item more: its device's group grows by it at the end, in front of what comes later.
items_of-step :
    (grouped : Dict Text (List PlanItem)) (item : PlanItem) (later : List PlanItem) (device : Text)
    → items_of
          (put grouped item.device_identity (items_of grouped item.device_identity ++ (item ∷ [])))
          device
        ++ later
      ≡ items_of grouped device ++ (if item.device_identity == device then item ∷ later else later)
items_of-step grouped item later device =
    rw
      (items_of-put grouped item.device_identity device
        (items_of grouped item.device_identity ++ (item ∷ [])))
      (elim (Bool-cases (item.device_identity == device)) [
        | inl same ↦ rw same (
            append_assoc (items_of grouped item.device_identity) (item ∷ []) later
            ∙ ap (λ d. items_of grouped d ++ (item ∷ later))
                ((eq_iff item.device_identity device).0 same))
        | inr other ↦ rw other
      ])

items_of-group_items :
    (grouped : Dict Text (List PlanItem)) (items : List PlanItem) (device : Text)
    → items_of (group_items grouped items) device
      ≡ items_of grouped device ++ keep (λ i. i.device_identity == device) items
unfolding group_items keep
items_of-group_items grouped [] device = sym (append-nil (items_of grouped device))
items_of-group_items grouped (item ∷ rest) device =
    let d = item.device_identity in
    items_of-group_items (put grouped d (items_of grouped d ++ (item ∷ []))) rest device
    ∙ items_of-step grouped item (keep (λ i. i.device_identity == device) rest) device

-- A device's group is the plan's items for it, in plan order, and is empty for other devices.
pub items_of-by_device :
    (p : Plan) (device : Text)
    → items_of (by_device p) device ≡ keep (λ i. i.device_identity == device) p.items
unfolding by_device get
items_of-by_device p device = items_of-group_items [] p.items device
