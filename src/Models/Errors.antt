-- ===== src/Models/Errors.antt =====
-- The exceptions that the pure core raises, as results. Each carries what its message is made of.
use ha_device_links.Prelude.{Text, ℕ, Option}

pub data Error : Type 0 where
  self_control : (identity : Text) → Error
  no_single_group : (emitter_id : Text) → Error
  no_target no_feature opposite_hybrid : (rule_id : Text) → Error
  duplicate_target : (rule_id identity : Text) (endpoint : Option ℕ) → Error
  duplicate_rule : (profile_id rule_id : Text) → Error
  missing_action : Error

pub data Result {ℓ} (A : Type ℓ) : Type ℓ where
  ok : A → Result A
  err : Error → Result A

infixl 5 ◌>>=◌ ◌>>◌
abbrev pub ◌>>=◌ {ℓ κ} : {A : Type ℓ} {B : Type κ} → Result A → (A → Result B) → Result B
ok a >>= f = f a
err e >>= f = err e

abbrev pub ◌>>◌ {ℓ κ} : {A : Type ℓ} {B : Type κ} → Result A → Result B → Result B
m >> k = m >>= λ _. k
