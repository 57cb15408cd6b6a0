-- ===== src/Base/Int.antt =====
-- Signed integers over the native numbers, under the library's names.
use project_based_learning.Base.Tests.{ltb, leb, ◌==◌, if◌then◌else◌}
use mathlib.Core.Path.{◌≡◌, ap}
use native.Mathlib.Omega.{arith}
use Prim.Native.Nat.{ℕ, suc, ◌+◌, ◌-◌, ◌*◌, ◌%◌, ◌^◌, ◌≤◌, ◌<◌}
use mathlib.Core.Bool.{Bool, true}

-- `negsuc n` is -(n + 1).
pub data ℤ : Type 0 where
  pos : ℕ → ℤ
  negsuc : ℕ → ℤ

-- The values of a Go `int64`.
abbrev pub IsInt64 : ℤ → Type 0
IsInt64 (pos n) = n < 2 ^ 63
IsInt64 (negsuc n) = n < 2 ^ 63

abbrev pub pos_part : ℤ → ℕ
pos_part (pos n) = n
pos_part (negsuc n) = 0

abbrev pub neg_part : ℤ → ℕ
neg_part (pos n) = 0
neg_part (negsuc n) = suc n

abbrev pub ltb_ℤ : ℤ → ℤ → Bool
ltb_ℤ a b = ltb (pos_part a + neg_part b) (pos_part b + neg_part a)

infix 50 ◌≤ℤ◌
abbrev pub ◌≤ℤ◌ : ℤ → ℤ → Type 0
a ≤ℤ b = pos_part a + neg_part b ≤ pos_part b + neg_part a

abbrev pub eq_ℤ : ℤ → ℤ → Bool
eq_ℤ a b = (pos_part a + neg_part b) == (pos_part b + neg_part a)

pub eq_ℤ→eq : (a b : ℤ) → eq_ℤ a b ≡ true → a ≡ b
eq_ℤ→eq (pos m) (pos n) h = ap pos (ground (arith, h))
eq_ℤ→eq (pos m) (negsuc n) h = absurd (ground (arith, h))
eq_ℤ→eq (negsuc m) (pos n) h = absurd (ground (arith, h))
eq_ℤ→eq (negsuc m) (negsuc n) h = ap negsuc (ground (arith, h))

pub eq_ℤ_refl : (a : ℤ) → eq_ℤ a a ≡ true
eq_ℤ_refl (pos n) = ground arith
eq_ℤ_refl (negsuc n) = ground arith

-- Go's arithmetic on `int64`: the value of the two's complement with the low 64 bits.
abbrev pub signed_64 : ℕ → ℤ
signed_64 m = if ltb m (2 ^ 63) then pos m else negsuc (2 ^ 64 - 1 - m)

unfoldable pub wrap_64 : ℤ → ℤ
wrap_64 (pos n) = signed_64 (n % 2 ^ 64)
wrap_64 (negsuc n) = signed_64 (2 ^ 64 - 1 - n % 2 ^ 64)

-- a - b, as an integer.
abbrev pub sub_ℕ : ℕ → ℕ → ℤ
sub_ℕ a b = if leb b a then pos (a - b) else negsuc (b - a - 1)

unfoldable pub add_64 : ℤ → ℤ → ℤ
add_64 a b = wrap_64 (sub_ℕ (pos_part a + pos_part b) (neg_part a + neg_part b))

unfoldable pub sub_64 : ℤ → ℤ → ℤ
sub_64 a b = wrap_64 (sub_ℕ (pos_part a + neg_part b) (neg_part a + pos_part b))

unfoldable pub mul_64 : ℤ → ℤ → ℤ
mul_64 a b = wrap_64 (
    sub_ℕ (pos_part a * pos_part b + neg_part a * neg_part b)
      (pos_part a * neg_part b + neg_part a * pos_part b))

-- No wrap-around where the result fits.
pub wrap_64-pos : (n : ℕ) → n < 2 ^ 63 → wrap_64 (pos n) ≡ pos n
unfolding wrap_64
wrap_64-pos n h = let e : n % 2 ^ 64 ≡ n = omega arith in rw e (ground arith)

-- `n++` and `n--` cancel, also where they wrap around.
pub sub_64-add_64 : (z : ℤ) → IsInt64 z → sub_64 (add_64 z (pos 1)) (pos 1) ≡ z
unfolding add_64 sub_64 wrap_64
sub_64-add_64 (pos n) h = ground arith
sub_64-add_64 (negsuc n) h = ground arith

pub add_64-pos : (a b : ℕ) → a + b < 2 ^ 63 → add_64 (pos a) (pos b) ≡ pos (a + b)
unfolding add_64
add_64-pos a b h = ground (arith, wrap_64-pos (a + b))

pub sub_64-pos : (a b : ℕ) → b ≤ a → a < 2 ^ 63 → sub_64 (pos a) (pos b) ≡ pos (a - b)
unfolding sub_64
sub_64-pos a b h k = ground (arith, wrap_64-pos (a - b))

pub mul_64-pos : (a b : ℕ) → a * b < 2 ^ 63 → mul_64 (pos a) (pos b) ≡ pos (a * b)
unfolding mul_64
mul_64-pos a b h = ground (arith, wrap_64-pos (a * b))
