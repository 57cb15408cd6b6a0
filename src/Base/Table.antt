-- ===== src/Base/Table.antt =====
-- Facts about all small numbers, by evaluation.
use Prim.Native.Nat.{ℕ, zero, suc, ◌<◌}
use mathlib.Core.Path.{◌≡◌}
use mathlib.Core.Bool.{Bool, true, ◌&&◌}
use native.Mathlib.Omega.{arith}

unfoldable pub every_below : (ℕ → Bool) → ℕ → Bool
every_below test zero = true
every_below test (suc n) = every_below test n && test n

pub every_below_sound :
    (test : ℕ → Bool) (n i : ℕ) → every_below test n ≡ true → i < n → test i ≡ true
unfolding every_below
every_below_sound test zero i h lt = absurd (omega arith)
every_below_sound test (suc n) i h lt = ground (arith, every_below_sound test n i)
