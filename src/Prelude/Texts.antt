-- ===== src/Prelude/Texts.antt =====
-- Python's `str` as the list of its code points, and what the program calls on it.
use Prim.Native.Nat.{ℕ, zero, suc, ◌+◌, ◌-◌, ◌*◌, ◌/◌, ◌%◌, ◌<◌, ◌≤◌}
use Prim.Native.Char.{code}
use Prim.Native.String.{String}
use mathlib.Core.Path.{◌≡◌, refl, ap, ◌∙◌, sym}
use mathlib.Core.Logic.{◌≢◌, inl, inr}
use mathlib.Core.Option.{Option, none, some}
use mathlib.Core.List.{List, [], ◌∷◌, ◌++◌}
use native.Mathlib.Omega.{arith}
use ha_device_links.Prelude.Tests.{ltb, nat_beq, Bool-cases, if◌then◌else◌}
use ha_device_links.Prelude.Lists.{All}

abbrev pub Text : Type 0
Text = List ℕ

abbrev codes : String → Text
codes String.[] = []
codes (String.◌∷◌ c s) = code c ∷ codes s

-- A literal. It stays shut in proofs, and computes where a declaration unfolds it.
unfoldable pub text : String → Text
text s = codes s

-- `s.replace(c, w)` for a `c` of one character
unfoldable pub replace : ℕ → Text → Text → Text
replace c w [] = []
replace c w (x ∷ s) = (if nat_beq x c then w else x ∷ []) ++ replace c w s

-- `sep.join(parts)` for a `sep` of one character
unfoldable pub join : ℕ → List Text → Text
join sep [] = []
join sep (p ∷ []) = p
join sep (p ∷ q ∷ ps) = p ++ (sep ∷ join sep (q ∷ ps))

-- `str(n)` of a number that is not negative
digits_from : ℕ → ℕ → Text → Text
digits_from zero n acc = acc
digits_from (suc f) n acc =
    let rest = digits_from f (n / 10) ((48 + n % 10) ∷ acc) in
    if ltb n 10 then (48 + n) ∷ acc else rest

unfoldable pub str : ℕ → Text
unfolding digits_from
str n = digits_from (suc n) n []

-- `str(n)`, or the empty text for `None`
unfoldable pub str_or_empty : Option ℕ → Text
str_or_empty none = []
str_or_empty (some n) = str n

value_from : ℕ → Text → ℕ
value_from a [] = a
value_from a (c ∷ s) = value_from (a * 10 + (c - 48)) s

value_from-digits_from :
    (f n : ℕ) (acc : Text) → n < f → value_from 0 (digits_from f n acc) ≡ value_from n acc
unfolding digits_from value_from
value_from-digits_from zero n acc h = elim h [ ]
value_from-digits_from (suc f) n acc h = elim (Bool-cases (ltb n 10)) [
  | inl small ↦
      let e : 0 * 10 + (48 + n - 48) ≡ n = omega arith in rw small (ap (λ k. value_from k acc) e)
  | inr large ↦
      let e : n / 10 * 10 + (48 + n % 10 - 48) ≡ n = omega arith in
      rw large (
        value_from-digits_from f (n / 10) ((48 + n % 10) ∷ acc) (ground arith)
        ∙ ap (λ k. value_from k acc) e)
]

-- Decimal notation is unambiguous.
pub str-injective : (m n : ℕ) → str m ≡ str n → m ≡ n
unfolding str value_from
str-injective m n h =
    sym (value_from-digits_from (suc m) m [] (omega arith))
    ∙ ap (value_from 0) h
    ∙ value_from-digits_from (suc n) n [] (omega arith)

digits_from-ne-nil : (f n c : ℕ) (acc : Text) → digits_from f n (c ∷ acc) ≢ []
unfolding digits_from
digits_from-ne-nil zero n c acc h = cc
digits_from-ne-nil (suc f) n c acc h =
    ground (arith, digits_from-ne-nil f (n / 10) (48 + n % 10) (c ∷ acc))

str-ne-nil : (n : ℕ) → str n ≢ []
unfolding str digits_from
str-ne-nil n h = ground (arith, digits_from-ne-nil n (n / 10) (48 + n % 10) [])

pub str_or_empty-injective : (a b : Option ℕ) → str_or_empty a ≡ str_or_empty b → a ≡ b
unfolding str_or_empty
str_or_empty-injective none none h = refl
str_or_empty-injective none (some n) h = absurd (str-ne-nil n (sym h))
str_or_empty-injective (some m) none h = absurd (str-ne-nil m h)
str_or_empty-injective (some m) (some n) h = ap some (str-injective m n h)

-- Every character of a decimal is a digit.
digits_from-All :
    (f n : ℕ) (acc : Text)
    → All (λ c. (48 ≤ c) × (c ≤ 57)) acc
    → All (λ c. (48 ≤ c) × (c ≤ 57)) (digits_from f n acc)
unfolding digits_from
digits_from-All zero n acc h = h
digits_from-All (suc f) n acc h = elim (Bool-cases (ltb n 10)) [
  | inl small ↦ rw small ((omega arith, ground arith), h)
  | inr large ↦
      rw large (digits_from-All f (n / 10) ((48 + n % 10) ∷ acc) ((omega arith, omega arith), h))
]

pub str-All : (n : ℕ) → All (λ c. (48 ≤ c) × (c ≤ 57)) (str n)
unfolding str
str-All n = digits_from-All (suc n) n [] tt
