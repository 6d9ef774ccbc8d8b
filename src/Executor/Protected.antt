-- ===== src/Executor/Protected.antt =====
-- executor.py: nothing that is refused is ever written.
use ha_device_links.Prelude.{
  Text, ℕ, suc, List, [], ◌∷◌, map, Option, some, none, true, false, ◌≡◌, ◌⊎◌, refl, subst, inl,
  inr, Bool-cases, Option-cases, is_some, All, All-append, All-of_mem, Memᴰ, get, list_eq, nat_eq,
}
use ha_device_links.Models.{
  identity, ItemLink, PlanItem, Plan, PlanOp, add, remove, set_param, blocked, pending, item_link,
  backend_eq,
}
use ha_device_links.Coordinator.{Coordinator, backend_for}
use ha_device_links.Executor.Types.{Op, Write, new_op}
use ha_device_links.Executor.Refuse.{
  is_system, reads_system, protects_slot, is_unselected, refusal_of, refusal_with, refusal,
  refuse_op, refuse_impossible,
}
use ha_device_links.Executor.Prepare.{
  Resolved, source_of, resolve_op, resolve_from, resolve_devices,
}
use ha_device_links.Executor.Run.{World, prepared, launched, Reach}
use ha_device_links.Executor.Calls.{Reach-InWorld}
use ha_device_links.Executor.Permitted.{
  IsFree, IsOrdinary, IsChosen, IsUnread, or-false, protects_slot-IsFree, reads_system-IsOrdinary,
  is_unselected-IsChosen,
}
use ha_device_links.Executor.Grouped.{launched-InWorld}

module _ (c : Coordinator) (plan : Plan) (selected : List Text) where
  -- The link was not read as a system entry and stands in no slot that one takes; and the item adds
  -- it, or removes it, which somebody owns or selected, or which nobody read.
  abbrev pub IsPermitted : PlanItem → ItemLink → Type 0
  IsPermitted item l =
      IsOrdinary l
      × IsFree (get c.backends (item_link l).source.backend)
          (get c.observed (identity (item_link l).source)) (item_link l)
      × ((item.op ≡ add) ⊎ ((item.op ≡ remove) × (IsChosen selected l ⊎ IsUnread l)))

  refusal_of-IsChosen :
      (item : PlanItem) (op : PlanOp) (l : ItemLink)
      → refusal_of item selected op (some l) ≡ none
      → (op ≡ add) ⊎ ((op ≡ remove) × (IsChosen selected l ⊎ IsUnread l))
  unfolding refusal_of
  refusal_of-IsChosen item add l h = inl refl
  refusal_of-IsChosen item remove l h = elim (Bool-cases (is_unselected l selected)) [
    | inr f ↦ inr (refl, is_unselected-IsChosen l selected f)
    | inl t ↦ cc (h, t)
  ]
  refusal_of-IsChosen item set_param l h = cc h
  refusal_of-IsChosen item blocked l h = cc h
  refusal_of-IsChosen item pending l h = cc h

  refusal-IsPermitted :
      (item : PlanItem) (l : ItemLink)
      → item.link ≡ some l
      → refusal c item selected ≡ none
      → IsPermitted item l
  unfolding refusal refusal_with is_system backend_for
  refusal-IsPermitted item l e h =
      let k = subst (λ o. refusal_with c item selected o ≡ none) e h in
      elim (Bool-cases (is_system c l)) [
        | inl t ↦ cc (k, t)
        | inr f ↦
            let (ordinary, free) =
              or-false (reads_system l)
                (protects_slot c (item_link l) (get c.backends (item_link l).source.backend)) f in
            (
              reads_system-IsOrdinary l ordinary,
              protects_slot-IsFree c (item_link l) (get c.backends (item_link l).source.backend)
                  free,
              refusal_of-IsChosen item item.op l (rw f at k),
            )
      ]

  -- A write of such an item of the plan, for a device whose adapter is loaded.
  abbrev pub IsAllowed : Write → Type 0
  IsAllowed w =
      (item : PlanItem) × Memᴰ item plan.items
      × (item.link ≡ some w.link)
      × IsPermitted item w.link
      × (is_some (backend_for c (source_of w.link)) ≡ true)

  -- An operation of the plan that has an outcome already, or that nothing refuses.
  abbrev IsJudged : Op → Type 0
  IsJudged op =
      Memᴰ op.item plan.items × (is_some op.outcome ≡ false → refusal c op.item selected ≡ none)

  refuse_op-IsJudged :
      (item : PlanItem)
      → Memᴰ item plan.items
      → IsJudged (refuse_op (refusal c item selected) (new_op item))
  unfolding refuse_op
  refuse_op-IsJudged item m = elim (Option-cases (refusal c item selected)) [
    | inl clear ↦ rw clear (m, λ h. clear)
    | inr (d, refused) ↦ rw refused (m, λ h. cc h)
  ]

  refuse_impossible-IsJudged :
      (items : List PlanItem)
      → All (λ item. Memᴰ item plan.items) items
      → All IsJudged (refuse_impossible c selected (map new_op items))
  unfolding refuse_impossible
  refuse_impossible-IsJudged [] h = tt
  refuse_impossible-IsJudged (item ∷ items) h =
      (refuse_op-IsJudged item h.0, refuse_impossible-IsJudged items h.1)

  resolve_op-IsAllowed :
      (i : ℕ) (op : Op) (l : Option ItemLink) (r : Resolved)
      → op.item.link ≡ l
      → IsJudged op
      → All IsAllowed r.writes
      → All IsAllowed (resolve_op c i op l r).writes
  unfolding resolve_op
  resolve_op-IsAllowed i op none r e h k = k
  resolve_op-IsAllowed i op (some l) r e h k = elim (Bool-cases (is_some op.outcome)) [
    | inl settled ↦ rw settled k
    | inr open_yet ↦ elim (Bool-cases (is_some (backend_for c (source_of l)))) [
      | inr unloaded ↦ rw (open_yet, unloaded) k
      | inl loaded ↦
          rw (open_yet, loaded)
            (All-append IsAllowed r.writes _ k
              ((op.item, h.0, e, refusal-IsPermitted op.item l e (h.1 open_yet), loaded), tt))
    ]
  ]

  resolve_from-IsAllowed :
      (i : ℕ) (ops : List Op) (r : Resolved)
      → All IsJudged ops
      → All IsAllowed r.writes
      → All IsAllowed (resolve_from c i ops r).writes
  unfolding resolve_from
  resolve_from-IsAllowed i [] r h k = k
  resolve_from-IsAllowed i (op ∷ ops) r h k =
      resolve_from-IsAllowed (suc i) ops (resolve_op c i op op.item.link r) h.1
        (resolve_op-IsAllowed i op op.item.link r refl h.0 k)

  prepared-IsAllowed :
      (id created_at scope : Text)
      → All IsAllowed (prepared c plan selected id created_at scope).1.writes
  unfolding prepared resolve_devices
  prepared-IsAllowed id created_at scope =
      resolve_from-IsAllowed 0 (refuse_impossible c selected (map new_op plan.items)) _
        (refuse_impossible-IsJudged plan.items (All-of_mem plan.items (λ item m. m))) tt

-- Whatever happens while a job runs, every write that is sent to an adapter is that of an item of the
-- plan, for a device that has an adapter. Its link was not read as a system entry, and where the
-- adapter keeps whole slots for those, the device holds none at the link's endpoint in its group. The
-- item adds the link, or removes one that was read with an owner or was selected, or removes a link
-- that nobody read, as a hand-made plan may. All this is by what was known when the job was prepared
-- (`before`), whatever is known when the devices were read again (`after`).
pub Reach-IsAllowed :
    {limit : ℕ} {seconds : Text} {t : World} (before after : Coordinator) (plan fresh : Plan)
    (selected : List Text) (id created_at scope : Text)
    → Reach limit seconds
        (launched after plan fresh
          (prepared before plan selected id created_at scope).0
          (prepared before plan selected id created_at scope).1)
        t
    → All (IsAllowed before plan selected) t.calls
Reach-IsAllowed before after plan fresh selected id created_at scope r =
    let P = IsAllowed before plan selected in
    let (handles, j) = prepared before plan selected id created_at scope in
    (Reach-InWorld P r (
      launched-InWorld P after plan fresh handles j
        (prepared-IsAllowed before plan selected id created_at scope))).1
