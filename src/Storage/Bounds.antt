-- ===== src/Storage/Bounds.antt =====
-- storage.py: the histories stay bounded, and lose their oldest entries first.
use ha_device_links.Prelude.{
  ℕ, zero, suc, ◌-◌, ◌≤◌, List, [], ◌∷◌, ◌++◌, ◌≡◌, refl, arith, length, length-append, ap,
}
use ha_device_links.Storage.State.{
  drop, last, with_snapshot, with_job, StoredState, Snapshot, JobSummary, max_jobs, max_snapshots,
}

module _ {ℓ} {A : Type ℓ} where
  length-drop : (n : ℕ) (xs : List A) → length (drop n xs) ≡ length xs - n
  unfolding drop
  length-drop zero xs = omega arith
  length-drop (suc n) [] = omega arith
  length-drop (suc n) (x ∷ xs) = omega (arith, length-drop n xs)

  -- What is dropped from a list, and what is left.
  drop-suffix : (n : ℕ) (xs : List A) → (old : List A) × (xs ≡ old ++ drop n xs)
  unfolding drop
  drop-suffix zero xs = ([], refl)
  drop-suffix (suc n) [] = ([], refl)
  drop-suffix (suc n) (x ∷ xs) = let (old, e) = drop-suffix n xs in (x ∷ old, ap (λ ys. x ∷ ys) e)

  drop-append_last :
      (n : ℕ) (xs : List A) (x : A)
      → n ≤ length xs
      → drop n (xs ++ (x ∷ [])) ≡ drop n xs ++ (x ∷ [])
  unfolding drop
  drop-append_last zero xs x h = refl
  drop-append_last (suc n) [] x h = absurd (omega arith)
  drop-append_last (suc n) (y ∷ xs) x h = drop-append_last n xs x (omega arith)

  -- A history with a new entry: it is bounded, ends with the new entry, and has lost only entries
  -- that are older than all it keeps.
  abbrev pub IsHistory : ℕ → List A → A → List A → Type ℓ
  IsHistory bound old x new =
      (length new ≤ bound)
      × ((kept : List A) × (new ≡ kept ++ (x ∷ [])) × ((lost : List A) × (old ≡ lost ++ kept)))

  last-IsHistory :
      (n : ℕ) (xs : List A) (x : A) → IsHistory (suc n) xs x (last (suc n) (xs ++ (x ∷ [])))
  unfolding last
  last-IsHistory n xs x =
      let k = length (xs ++ (x ∷ [])) - suc n in
      let short : k ≤ length xs = omega (arith, length-append {ℓ} xs (x ∷ [])) in
      let (lost, e) = drop-suffix k xs in
      (
        omega (arith, length-drop k (xs ++ (x ∷ []))),
        (drop k xs, drop-append_last k xs x short, (lost, e)),
      )

-- At most fifty jobs and twenty snapshots are stored: a new one stands last, and the oldest go first.
pub with_job-IsHistory :
    (s : StoredState) (job : JobSummary) (snapshot : Snapshot)
    → IsHistory max_jobs s.jobs job (with_job s job).jobs
      × IsHistory max_snapshots s.snapshots snapshot (with_snapshot s snapshot).snapshots
unfolding with_job with_snapshot
with_job-IsHistory s job snapshot =
    (last-IsHistory 49 s.jobs job, last-IsHistory 19 s.snapshots snapshot)
