-- ===== src/Prelude/Repetitions.antt =====
-- Lists without repetitions, as a loop with a set of the elements seen so far finds them.
use mathlib.Core.Path.{◌≡◌, refl}
use mathlib.Core.Logic.{◌↔◌}
use mathlib.Core.Bool.{false}
use mathlib.Core.List.{List, [], ◌∷◌}
use native.Mathlib.Omega.{arith}
use ha_device_links.Prelude.Equality.{Eq, contains}
use ha_device_links.Prelude.Lists.{All, Distinct}

module _ {ℓ} {A : Type ℓ} ⦃e : Eq A⦄ where
  -- Each element is new when the loop reaches it.
  abbrev pub Fresh : List A → List A → Type 0
  Fresh seen [] = Unit
  Fresh seen (x ∷ xs) = (contains seen x ≡ false) × Fresh (x ∷ seen) xs

  abbrev Apart : List A → List A → Type 0
  Apart seen xs = All (λ x. contains seen x ≡ false) xs

  Apart-nil : (xs : List A) → Apart [] xs
  unfolding contains
  Apart-nil [] = tt
  Apart-nil (x ∷ xs) = (refl, Apart-nil xs)

  Apart-cons :
      (x : A) (seen xs : List A) → Apart (x ∷ seen) xs ↔ (Apart seen xs × (contains xs x ≡ false))
  unfolding contains
  Apart-cons x seen [] = (λ h. (tt, refl), λ h. tt)
  Apart-cons x seen (y ∷ ys) =
      let (there, back) = Apart-cons x seen ys in
      (
        λ h.
            let (a, c) = there h.1 in
            ((ground (arith, h.0), a), ground (arith, h.0, c, e.beq_iff x y, e.beq_iff y x)),
        λ (h, c).
            (ground (arith, h.0, c, e.beq_iff x y, e.beq_iff y x), back (h.1, ground (arith, c))),
      )

  Fresh-parts : (seen xs : List A) → Fresh seen xs ↔ (Apart seen xs × Distinct xs)
  Fresh-parts seen [] = (λ h. (tt, tt), λ h. tt)
  Fresh-parts seen (x ∷ xs) =
      let (there, back) = Fresh-parts (x ∷ seen) xs in
      let (out, into) = Apart-cons x seen xs in
      (
        λ h. let (a, d) = there h.1 in let (b, c) = out a in ((h.0, b), (c, d)),
        λ (a, d). (a.0, back (into (a.1, d.0), d.1)),
      )

  pub Fresh-Distinct : (xs : List A) → Fresh [] xs ↔ Distinct xs
  Fresh-Distinct xs =
      (λ f. ((Fresh-parts [] xs).0 f).1, λ d. (Fresh-parts [] xs).1 (Apart-nil xs, d))
