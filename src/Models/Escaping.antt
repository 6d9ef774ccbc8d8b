-- ===== src/Models/Escaping.antt =====
-- models.py `_escaped` and the join by `|`: the joined text determines its parts.
use ha_device_links.Prelude.{
  Text, ℕ, List, [], ◌∷◌, ◌++◌, map, true, false, ◌≡◌, refl, ap, sym, ◌∙◌, replace, join, nat_beq,
  nat_beq_iff, Bool-cases, inl, inr, if◌then◌else◌, append_assoc, append-nil,
}
use ha_device_links.Models.Links.{escaped}

-- Read backwards: split at each separator that no escape precedes, and drop the escapes.
push : ℕ → List Text → List Text
push c [] = (c ∷ []) ∷ []
push c (p ∷ ps) = (c ∷ p) ∷ ps

pub split : Text → List Text
split [] = [] ∷ []
split (c ∷ []) = if nat_beq c b'|' then [] ∷ [] ∷ [] else (c ∷ []) ∷ []
split (c ∷ d ∷ r) = elim (nat_beq c b'\\') [
  | true ↦ push d (split r)
  | false ↦ elim (nat_beq c b'|') [ true ↦ [] ∷ split (d ∷ r) | false ↦ push c (split (d ∷ r)) ]
]

escape_char : ℕ → Text
escape_char c =
    if nat_beq c b'\\'
    then b'\\' ∷ b'\\' ∷ []
    else if nat_beq c b'|'
    then b'\\' ∷ b'|' ∷ []
    else c ∷ []

replace-append : (c : ℕ) (w s t : Text) → replace c w (s ++ t) ≡ replace c w s ++ replace c w t
unfolding replace
replace-append c w [] t = refl
replace-append c w (x ∷ s) t =
    rw (replace-append c w s t)
      (sym (append_assoc (if nat_beq x c then w else x ∷ []) (replace c w s) (replace c w t)))

escaped-cons : (c : ℕ) (s : Text) → escaped (c ∷ s) ≡ escape_char c ++ escaped s
unfolding escaped escape_char replace
escaped-cons c s = elim (Bool-cases (nat_beq c b'\\')) [
  | inl h ↦ rw h refl
  | inr h ↦ elim (Bool-cases (nat_beq c b'|')) [ inl k ↦ rw (h, k) refl | inr k ↦ rw (h, k) refl ]
]

-- An escaped character in front of any text is read back as that character.
split-escape_char : (c : ℕ) (t : Text) → split (escape_char c ++ t) ≡ push c (split t)
unfolding split escape_char push
split-escape_char c [] = elim (Bool-cases (nat_beq c b'\\')) [
  | inl h ↦ rw h (ap (λ x. (x ∷ []) ∷ []) (sym ((nat_beq_iff c b'\\').0 h)))
  | inr h ↦ elim (Bool-cases (nat_beq c b'|')) [
    | inl k ↦ rw (h, k) (ap (λ x. (x ∷ []) ∷ []) (sym ((nat_beq_iff c b'|').0 k)))
    | inr k ↦ rw (h, k) (rw (k, split))
  ]
]
split-escape_char c (d ∷ t) = elim (Bool-cases (nat_beq c b'\\')) [
  | inl h ↦ rw h (ap (λ x. push x (split (d ∷ t))) (sym ((nat_beq_iff c b'\\').0 h)))
  | inr h ↦ elim (Bool-cases (nat_beq c b'|')) [
    | inl k ↦ rw (h, k) (ap (λ x. push x (split (d ∷ t))) (sym ((nat_beq_iff c b'|').0 k)))
    | inr k ↦ rw (h, k) (rw (h, k, split))
  ]
]

prepend : Text → List Text → List Text
prepend [] ps = ps
prepend (c ∷ s) ps = push c (prepend s ps)

split-escaped : (s t : Text) → split (escaped s ++ t) ≡ prepend s (split t)
unfolding prepend
split-escaped [] t = unfold escaped replace in refl
split-escaped (c ∷ s) t = rw (escaped-cons c s) (
    rw (append_assoc (escape_char c) (escaped s) t)
      (split-escape_char c (escaped s ++ t) ∙ ap (push c) (split-escaped s t)))

prepend-cons : (s q : Text) (ps : List Text) → prepend s (q ∷ ps) ≡ (s ++ q) ∷ ps
unfolding prepend push
prepend-cons [] q ps = refl
prepend-cons (c ∷ s) q ps = rw (prepend-cons s q ps)

split-separator : (t : Text) → split (b'|' ∷ t) ≡ [] ∷ split t
unfolding split
split-separator [] = refl
split-separator (c ∷ t) = refl

-- Splitting what was joined gives the parts back, whatever separators and escapes they hold.
pub split-join : (p : Text) (ps : List Text) → split (join b'|' (map escaped (p ∷ ps))) ≡ p ∷ ps
unfolding join
split-join p [] =
    rw (sym (append-nil (escaped p)))
      (split-escaped p [] ∙ unfold split in prepend-cons p [] [] ∙ rw (append-nil p))
split-join p (q ∷ ps) =
    split-escaped p (b'|' ∷ join b'|' (map escaped (q ∷ ps)))
    ∙ ap (prepend p)
        (split-separator (join b'|' (map escaped (q ∷ ps))) ∙ ap (◌∷◌ []) (split-join q ps))
    ∙ prepend-cons p [] (q ∷ ps)
    ∙ rw (append-nil p)

-- Two sequences of parts with one joined text are the same sequence.
pub join-injective :
    (p q : Text) (ps qs : List Text)
    → join b'|' (map escaped (p ∷ ps)) ≡ join b'|' (map escaped (q ∷ qs))
    → p ∷ ps ≡ q ∷ qs
join-injective p q ps qs h = sym (split-join p ps) ∙ ap split h ∙ split-join q qs
