-- ===== src/Base/Wire.antt =====
-- Big-endian numbers of `encoding/binary`, slices of fixed length, and equality of byte strings.
use Prim.Native.Nat.{ℕ, ◌+◌, ◌*◌, ◌/◌, ◌%◌, ◌^◌, ◌<◌}
use mathlib.Core.Path.{◌≡◌, refl, ap}
use mathlib.Core.Bool.{Bool, true, false, ◌&&◌}
use mathlib.Core.List.{List, [], ◌∷◌, ◌++◌}
use native.Mathlib.Omega.{arith}
use project_based_learning.Base.Tests.{◌==◌}
use project_based_learning.Base.Lists.{length, take, drop}
use project_based_learning.Base.Slices.{Bytes, IsByte, take-append, drop-append}
use project_based_learning.Base.Fallible.{Fallible, ok, panic}

-- `PutUint16` and `PutUint32`.
abbrev pub put_u16 : ℕ → Bytes
put_u16 x = (x / 2 ^ 8) % 256 ∷ x % 256 ∷ []

abbrev pub put_u32 : ℕ → Bytes
put_u32 x = (x / 2 ^ 24) % 256 ∷ (x / 2 ^ 16) % 256 ∷ (x / 2 ^ 8) % 256 ∷ x % 256 ∷ []

-- `Uint16` and `Uint32` read the first bytes of a slice, and panic on a shorter one.
abbrev pub get_u16 : Bytes → Fallible ℕ
get_u16 (a ∷ b ∷ s) = ok (a * 2 ^ 8 + b)
get_u16 _ = panic

abbrev pub get_u32 : Bytes → Fallible ℕ
get_u32 (a ∷ b ∷ c ∷ d ∷ s) = ok (a * 2 ^ 24 + b * 2 ^ 16 + c * 2 ^ 8 + d)
get_u32 _ = panic

abbrev pub IsU16 : ℕ → Type 0
IsU16 x = x < 2 ^ 16

abbrev pub IsU32 : ℕ → Type 0
IsU32 x = x < 2 ^ 32

pub get_u16-put : (x : ℕ) (rest : Bytes) → IsU16 x → get_u16 (put_u16 x ++ rest) ≡ ok x
get_u16-put x rest h = ap ok (omega arith)

pub get_u32-put : (x : ℕ) (rest : Bytes) → IsU32 x → get_u32 (put_u32 x ++ rest) ≡ ok x
get_u32-put x rest h = ap ok (omega arith)

pub put_u32-get :
    (a b c d : ℕ)
    → IsByte a
    → IsByte b
    → IsByte c
    → IsByte d
    → put_u32 (a * 2 ^ 24 + b * 2 ^ 16 + c * 2 ^ 8 + d) ≡ a ∷ b ∷ c ∷ d ∷ []
put_u32-get a b c d ha hb hc hd = ground arith

-- Slices at a known length.
pub take_exact {ℓ} : {A : Type ℓ} (n : ℕ) (xs ys : List A) → length xs ≡ n → take n (xs ++ ys) ≡ xs
take_exact n xs ys h = rw (← h) (take-append xs ys)

pub drop_exact {ℓ} : {A : Type ℓ} (n : ℕ) (xs ys : List A) → length xs ≡ n → drop n (xs ++ ys) ≡ ys
drop_exact n xs ys h = rw (← h) (drop-append xs ys)

-- Go's `==` on byte arrays and strings.
abbrev pub bytes_eq : Bytes → Bytes → Bool
bytes_eq [] [] = true
bytes_eq (a ∷ s) (b ∷ t) = a == b && bytes_eq s t
bytes_eq _ _ = false

pub bytes_eq_refl : (s : Bytes) → bytes_eq s s ≡ true
bytes_eq_refl [] = refl
bytes_eq_refl (a ∷ s) = ground (arith, bytes_eq_refl s)

pub bytes_eq→eq : (s t : Bytes) → bytes_eq s t ≡ true → s ≡ t
bytes_eq→eq [] [] h = refl
bytes_eq→eq [] (b ∷ t) h = cc
bytes_eq→eq (a ∷ s) [] h = cc
bytes_eq→eq (a ∷ s) (b ∷ t) h = ground (arith, bytes_eq→eq s t)

pub bytes_eq_sym : (s t : Bytes) → bytes_eq s t ≡ false → bytes_eq t s ≡ false
bytes_eq_sym [] [] h = h
bytes_eq_sym [] (b ∷ t) h = refl
bytes_eq_sym (a ∷ s) [] h = refl
bytes_eq_sym (a ∷ s) (b ∷ t) h = ground (arith, bytes_eq_sym s t)
