-- ===== src/Dht/Table/Xor.antt =====
-- Distances of identifiers (dht/table.go, XOR).
use Prim.Native.Nat.{bit_xor}
use project_based_learning.Base.{
  ℕ, suc, ◌+◌, ◌*◌, ◌/◌, ◌%◌, ◌≡◌, refl, ap, Bool, true, [], ◌∷◌, ltb, ◌==◌, ◌&&◌, arith, length,
  Bytes, IsByte, All,
}
use project_based_learning.Base.Table.{every_below, every_below_sound}
use project_based_learning.Dht.Table.{xor}

-- Twice the same byte is none, for all bytes, and a byte stays one.
abbrev twice_test : ℕ → ℕ → Bool
twice_test a b = bit_xor a (bit_xor a b) == b && ltb (bit_xor a b) 256

twice_table : every_below (λ t. twice_test (t / 256) (t % 256)) 65536 ≡ true
unfolding every_below
twice_table = refl

twice_at : (a b : ℕ) → IsByte a → IsByte b → twice_test a b ≡ true
twice_at a b ha hb =
    let t = a * 256 + b in
    let ea : t / 256 ≡ a = omega arith in
    let eb : t % 256 ≡ b = omega arith in
    rw (ea, eb) at
      (every_below_sound (λ t'. twice_test (t' / 256) (t' % 256)) 65536 t twice_table (omega arith))

cancel_once : (a b : ℕ) → IsByte a → IsByte b → (bit_xor a (bit_xor a b) ≡ b) × IsByte (bit_xor a b)
cancel_once a b ha hb = let e = twice_at a b ha hb in split (bit_xor a b) e
  where
    split : (x : ℕ) → (bit_xor a x == b && ltb x 256) ≡ true → (bit_xor a x ≡ b) × IsByte x
    split x e = (ground arith, ground arith)

pub xor-IsByte : (s t : Bytes) → All IsByte s → All IsByte t → All IsByte (xor s t)
unfolding xor
xor-IsByte [] t hs ht = tt
xor-IsByte (a ∷ s) [] hs ht = tt
xor-IsByte (a ∷ s) (b ∷ t) hs ht = ((cancel_once a b hs.0 ht.0).1, xor-IsByte s t hs.1 ht.1)

pub length-xor : (s t : Bytes) → length s ≡ length t → length (xor s t) ≡ length t
unfolding xor
length-xor [] [] e = refl
length-xor [] (b ∷ t) e = absurd (omega arith)
length-xor (a ∷ s) [] e = absurd (omega arith)
length-xor (a ∷ s) (b ∷ t) e = ap suc (length-xor s t (omega arith))

pub xor-xor :
    (s t : Bytes) → length s ≡ length t → All IsByte s → All IsByte t → xor s (xor s t) ≡ t
unfolding xor
xor-xor [] [] e hs ht = refl
xor-xor [] (b ∷ t) e hs ht = absurd (omega arith)
xor-xor (a ∷ s) [] e hs ht = absurd (omega arith)
xor-xor (a ∷ s) (b ∷ t) e hs ht =
    let head = (cancel_once a b hs.0 ht.0).0 in
    let tail = xor-xor s t (omega arith) hs.1 ht.1 in λ i. head i ∷ tail i
