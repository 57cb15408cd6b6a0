-- ===== src/Base/Fallible.antt =====
-- The outcome of code whose errors carry only a message: a value, an error or a run-time panic.
pub data Fallible {ℓ} (A : Type ℓ) : Type ℓ where
  ok : A → Fallible A
  err panic : Fallible A

infixl 5 ◌>>=◌
abbrev pub ◌>>=◌ {ℓ κ} : {A : Type ℓ} {B : Type κ} → Fallible A → (A → Fallible B) → Fallible B
ok a >>= f = f a
err >>= f = err
panic >>= f = panic
