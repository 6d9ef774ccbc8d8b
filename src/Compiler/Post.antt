-- ===== src/Compiler/Post.antt =====
-- Total correctness of a step that may raise: it returns, and what it returns has the property.
use ha_device_links.Prelude.{◌≡◌, refl, Bool, true, false, if◌then◌else◌}
use ha_device_links.Models.{Result, ok, err, ◌>>=◌}

abbrev pub Returns : {A : Type 0} → (A → Type 0) → Result A → Type 0
Returns P (ok a) = P a
Returns P (err e) = ⊥

pub Returns-bind :
    {A B : Type 0} (P : A → Type 0) (Q : B → Type 0) (m : Result A) (k : A → Result B)
    → Returns P m
    → ((a : A) → P a → Returns Q (k a))
    → Returns Q (m >>= k)
Returns-bind P Q (ok a) k h f = f a h
Returns-bind P Q (err e) k h f = absurd h

pub Returns-map :
    {A : Type 0} (P Q : A → Type 0) (m : Result A)
    → ((a : A) → P a → Q a)
    → Returns P m
    → Returns Q m
Returns-map P Q (ok a) f h = f a h
Returns-map P Q (err e) f h = h

pub Returns-value :
    {A : Type 0} (P : A → Type 0) (m : Result A) → Returns P m → (a : A) × (m ≡ ok a) × P a
Returns-value P (ok a) h = (a, refl, h)
Returns-value P (err e) h = absurd h

pub Returns-if :
    {A : Type 0} (P : A → Type 0) (b : Bool) (m n : Result A)
    → Returns P m
    → Returns P n
    → Returns P (if b then m else n)
Returns-if P true m n h k = h
Returns-if P false m n h k = k
