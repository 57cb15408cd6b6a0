-- ===== src/Base/Outcome.antt =====
-- The outcome of a decoder whose errors carry only a message. `out_of_fuel` has no counterpart in the program.

use mathlib.Core.Option.{Option, none, some}
use project_based_learning.Base.Fallible.{Fallible}

pub data Outcome {ℓ} (A : Type ℓ) : Type ℓ where
  ok : A → Outcome A
  err panic out_of_fuel : Outcome A

infixl 5 ◌>>=◌
abbrev pub ◌>>=◌ {ℓ κ} : {A : Type ℓ} {B : Type κ} → Outcome A → (A → Outcome B) → Outcome B
ok a >>= f = f a
err >>= f = err
panic >>= f = panic
out_of_fuel >>= f = out_of_fuel

abbrev pub from_fallible {ℓ} : {A : Type ℓ} → Fallible A → Outcome A
from_fallible (Fallible.ok a) = ok a
from_fallible Fallible.err = err
from_fallible Fallible.panic = panic

-- A missing value or a failed type assertion that the code answers with an error.
abbrev pub or_err {ℓ} : {A : Type ℓ} → Option A → Outcome A
or_err (some a) = ok a
or_err none = err
