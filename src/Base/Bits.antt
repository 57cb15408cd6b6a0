-- ===== src/Base/Bits.antt =====
-- Single bits of a byte.
use Prim.Native.Nat.{bit_and, bit_or, ℕ, zero, suc, ◌+◌, ◌*◌, ◌/◌, ◌%◌, ◌^◌, ◌<◌}
use mathlib.Core.Path.{◌≡◌, refl}
use mathlib.Core.Bool.{Bool, true, false, not, ◌&&◌, ◌||◌}
use mathlib.Core.List.{[], ◌∷◌}
use native.Mathlib.Omega.{arith}
use project_based_learning.Base.Tests.{leb, ◌==◌}
use project_based_learning.Base.Lists.{set}
use project_based_learning.Base.Slices.{Bytes, IsByte, All}
use project_based_learning.Base.Table.{every_below, every_below_sound}

abbrev pub same_bool : Bool → Bool → Bool
same_bool true b = b
same_bool false b = not b

-- Bit j of `x | 2^k`, and that this is a byte, for every byte x and all bits k and j.
abbrev bit_test : ℕ → ℕ → ℕ → Bool
bit_test x k j =
    same_bool (not (bit_and (bit_or x (2 ^ k)) (2 ^ j) == 0))
      (k == j || not (bit_and x (2 ^ j) == 0))
    && leb (bit_or x (2 ^ k)) 255

bit_table : every_below (λ t. bit_test (t / 64) ((t / 8) % 8) (t % 8)) 16384 ≡ true
unfolding every_below
bit_table = refl

bit_at : (x k j : ℕ) → IsByte x → k < 8 → j < 8 → bit_test x k j ≡ true
bit_at x k j hx hk hj =
    let t = x * 64 + k * 8 + j in
    let ex : t / 64 ≡ x = omega arith in
    let ek : (t / 8) % 8 ≡ k = omega arith in
    let ej : t % 8 ≡ j = omega arith in
    rw (ex, ek, ej) at (every_below_sound _ 16384 t bit_table (omega arith))

pub same_bool→eq : (a b : Bool) → same_bool a b ≡ true → a ≡ b
same_bool→eq true true h = refl
same_bool→eq true false h = cc
same_bool→eq false true h = cc
same_bool→eq false false h = refl

and_left : (a b : Bool) → (a && b) ≡ true → a ≡ true
and_left a b h = ground arith

and_right : (a b : Bool) → (a && b) ≡ true → b ≡ true
and_right a b h = ground arith

module _ (x k : ℕ) (hx : IsByte x) (hk : k < 8) where
  pub bit_or-bit :
      (j : ℕ)
      → j < 8
      → not (bit_and (bit_or x (2 ^ k)) (2 ^ j) == 0) ≡ (k == j || not (bit_and x (2 ^ j) == 0))
  bit_or-bit j hj = same_bool→eq _ _ (and_left _ _ (bit_at x k j hx hk hj))

  pub bit_or-IsByte : IsByte (bit_or x (2 ^ k))
  bit_or-IsByte =
      ground (arith, and_right _ (leb (bit_or x (2 ^ k)) 255) (bit_at x k 0 hx hk (omega arith)))

pub All-set : (bits : Bytes) (i v : ℕ) → All IsByte bits → IsByte v → All IsByte (set bits i v)
All-set [] i v h hv = tt
All-set (b ∷ bits) zero v h hv = (hv, h.1)
All-set (b ∷ bits) (suc i) v h hv = (h.0, All-set bits i v h.1 hv)
