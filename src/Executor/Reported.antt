-- ===== src/Executor/Reported.antt =====
-- executor.py: the report of a job has a result for each item of the plan.
use ha_device_links.Prelude.{
  append-nil, append_assoc, Text, Dict, ℕ, suc, List, [], ◌∷◌, ◌++◌, map, Option, some, none, ◌≡◌,
  refl, sym, ◌∙◌, ap, inl, inr, Bool-cases, Option-cases, is_some, ◌==◌, nat_eq,
}
use ha_device_links.Models.{Diagnostic, ItemLink, PlanItem, PlanOp, Plan}
use ha_device_links.Backends.{status_eq}
use ha_device_links.Coordinator.{Coordinator, backend_for}
use ha_device_links.Storage.{StoredState}
use ha_device_links.Executor.Types.{
  Op, Job, Write, Stop, interrupt, LinkOutcome, LinkReport, new_op, report, link_fingerprint,
}
use ha_device_links.Executor.Refuse.{refusal, refuse_op, refuse_impossible}
use ha_device_links.Executor.Prepare.{
  Resolved, source_of, backend_missing, resolve_op, resolve_from, resolve_devices, mark, mark_write,
  mark_writes, writes_of,
}
use ha_device_links.Executor.Device.{settled}
use ha_device_links.Executor.Finish.{mark_not_attempted, job_report, finish, finish_cancelled}
use ha_device_links.Executor.Run.{World, Reach, first_stop, prepared, launched}
use ha_device_links.Executor.Kept.{items_of, items_of-update_op, items_of-Reach}

items_of-refuse :
    (c : Coordinator) (selected : List Text) (items : List PlanItem)
    → items_of (refuse_impossible c selected (map new_op items)) ≡ items
unfolding refuse_impossible refuse_op
items_of-refuse c selected [] = refl
items_of-refuse c selected (item ∷ items) = elim (Option-cases (refusal c item selected)) [
  | inl clear ↦ rw (clear, items_of-refuse c selected items) refl
  | inr (d, refused) ↦ rw (refused, items_of-refuse c selected items) refl
]

items_of-append : (xs ys : List Op) → items_of (xs ++ ys) ≡ items_of xs ++ items_of ys
items_of-append [] ys = refl
items_of-append (x ∷ xs) ys = rw (items_of-append xs ys) refl

items_of-resolve_op :
    (c : Coordinator) (i : ℕ) (op : Op) (l : Option ItemLink) (r : Resolved)
    → items_of (resolve_op c i op l r).ops ≡ items_of r.ops ++ (op.item ∷ [])
unfolding resolve_op backend_missing
items_of-resolve_op c i op none r = items_of-append r.ops (op ∷ [])
items_of-resolve_op c i op (some l) r = elim (Bool-cases (is_some op.outcome)) [
  | inl settled ↦ rw settled (items_of-append r.ops (op ∷ []))
  | inr open_yet ↦ elim (Bool-cases (is_some (backend_for c (source_of l)))) [
    | inr unloaded ↦ rw (open_yet, unloaded) (items_of-append r.ops _)
    | inl loaded ↦ rw (open_yet, loaded) (items_of-append r.ops (op ∷ []))
  ]
]

items_of-resolve_from :
    (c : Coordinator) (i : ℕ) (ops : List Op) (r : Resolved)
    → items_of (resolve_from c i ops r).ops ≡ items_of r.ops ++ items_of ops
unfolding resolve_from
items_of-resolve_from c i [] r = sym (append-nil _)
items_of-resolve_from c i (op ∷ ops) r =
    items_of-resolve_from c (suc i) ops (resolve_op c i op op.item.link r)
    ∙ rw (items_of-resolve_op c i op op.item.link r, append_assoc) refl

items_of-mark_writes :
    (reason : Write → Diagnostic) (o : LinkOutcome) (j : Job) (ws : List Write)
    → items_of (mark_writes reason o j ws).ops ≡ items_of j.ops
unfolding mark_writes mark_write
items_of-mark_writes reason o j [] = refl
items_of-mark_writes reason o j (w ∷ ws) =
    items_of-mark_writes reason o (mark_write reason o j w) ws
    ∙ items_of-update_op j.ops w.op _ (λ op. refl)

items_of-mark :
    (stale : List Text) (by_device : Dict Text (List Write)) (o : LinkOutcome)
    (reason : Write → Diagnostic) (j : Job)
    → items_of (mark stale by_device o reason j).ops ≡ items_of j.ops
unfolding mark
items_of-mark [] by_device o reason j = refl
items_of-mark (device ∷ stale) by_device o reason j =
    items_of-mark stale by_device o reason (mark_writes reason o j (writes_of by_device device))
    ∙ items_of-mark_writes reason o j (writes_of by_device device)

items_of-launched :
    (before after : Coordinator) (plan fresh : Plan) (selected : List Text)
    (id created_at scope : Text)
    → items_of
        (launched after plan fresh
          (prepared before plan selected id created_at scope).0
          (prepared before plan selected id created_at scope).1).job.ops
      ≡ plan.items
unfolding launched prepared resolve_devices
items_of-launched before after plan fresh selected id created_at scope =
    items_of-mark _ _ _ _ _
    ∙ items_of-resolve_from before 0 (refuse_impossible before selected (map new_op plan.items))
        (record { handles = []; writes = []; ops = [] })
    ∙ items_of-refuse before selected plan.items

-- What a result says of the item that it is for.
abbrev pub subject : LinkReport → Text × Text × PlanOp
subject r = (r.fingerprint, r.device_identity, r.op)

abbrev pub item_subject : PlanItem → Text × Text × PlanOp
item_subject item = (link_fingerprint item.link, item.device_identity, item.op)

map-subject : (ops : List Op) → map subject (map report ops) ≡ map item_subject (items_of ops)
unfolding report
map-subject [] = refl
map-subject (op ∷ ops) = rw (map-subject ops) refl

mark_not_attempted-item : (s : Stop) (op : Op) → (mark_not_attempted s op).item ≡ op.item
unfolding mark_not_attempted
mark_not_attempted-item s op = elim (Option-cases op.outcome) [
  | inl unanswered ↦ elim (Bool-cases (op.attempts == 0)) [
    | inl never ↦ rw (unanswered, never) refl
    | inr tried ↦ rw (unanswered, tried) refl
  ]
  | inr (outcome, answered) ↦ rw answered refl
]

items_of-mark_not_attempted :
    (s : Stop) (ops : List Op) → items_of (map (mark_not_attempted s) ops) ≡ items_of ops
items_of-mark_not_attempted s [] = refl
items_of-mark_not_attempted s (op ∷ ops) =
    rw (mark_not_attempted-item s op, items_of-mark_not_attempted s ops) refl

-- Whatever happens while a job runs, its report has one result for each item of the plan, in the
-- plan's order, with the item's fingerprint, device and operation; and so has the report that is made
-- if the task that awaits the job is cancelled.
pub finish-Reach :
    {limit : ℕ} {seconds : Text} {t : World} (before after : Coordinator) (plan fresh : Plan)
    (selected : List Text) (id created_at scope : Text) (state : StoredState)
    → Reach limit seconds
        (launched after plan fresh
          (prepared before plan selected id created_at scope).0
          (prepared before plan selected id created_at scope).1)
        t
    → (map subject (finish state t.job).1.results ≡ map item_subject plan.items)
      × (map subject (finish_cancelled state t.job).1.results ≡ map item_subject plan.items)
unfolding finish_cancelled finish job_report
finish-Reach {t = t} before after plan fresh selected id created_at scope state r =
    let kept =
      items_of-Reach r ∙ items_of-launched before after plan fresh selected id created_at scope in
    let why = first_stop t.job.stop interrupt in
    (
      map-subject t.job.ops ∙ ap (map item_subject) kept,
      map-subject (map (mark_not_attempted why) t.job.ops)
          ∙ ap (map item_subject) (items_of-mark_not_attempted why t.job.ops ∙ kept),
    )
