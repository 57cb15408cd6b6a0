-- ===== src/Download/Bitfield/Members.antt =====
-- `MakeBitfield` and `hasPiece` agree: a bitfield holds the pieces that it was made of.
use Prim.Native.Nat.{bit_and, bit_or, bit_and-bitwise}
use project_based_learning.Base.{
  ℕ, zero, suc, ◌+◌, ◌-◌, ◌/◌, ◌%◌, ◌≤◌, ◌<◌, ◌≡◌, refl, sym, ◌∙◌, false, ◌||◌, List, [], ◌∷◌,
  arith, length, get_or, set, replicate, length-set, length-replicate, get_or-set, get_or-replicate,
  leb, ◌==◌, Bytes, IsByte, All, All-get_or, contains, Bool-cases, ==_iff, inl, inr,
}
use project_based_learning.Base.Fallible.{ok}
use project_based_learning.Base.Bits.{bit_or-bit, bit_or-IsByte, All-set}
use project_based_learning.Download.Bitfield.{mask, has_piece, set_pieces, make_bitfield}

-- A bitfield with one more bit.
abbrev with_bit : Bytes → ℕ → Bytes
with_bit bits i = set bits (i / 8) (bit_or (get_or bits (i / 8) 0) (mask i))

module _ (bits : Bytes) (i : ℕ) (bytes : All IsByte bits) (inside : i / 8 < length bits) where
  IsByte-at : IsByte (get_or bits (i / 8) 0)
  IsByte-at = All-get_or IsByte bits (i / 8) 0 bytes inside

  with_bit-bytes : All IsByte (with_bit bits i)
  with_bit-bytes =
      All-set bits (i / 8) _ bytes
        (bit_or-IsByte (get_or bits (i / 8) 0) (7 - i % 8) IsByte-at (omega arith))

  has_piece-with_bit :
      (j : ℕ) → j / 8 < length bits → has_piece (with_bit bits i) j ≡ (i == j || has_piece bits j)
  unfolding has_piece
  has_piece-with_bit j lt = elim (Bool-cases (i / 8 == j / 8)) [
    | inl same ↦
        let x = get_or bits (i / 8) 0 in
        let e : i / 8 ≡ j / 8 = (==_iff _ _).0 same in
        ground (
          arith,
          length-set bits (i / 8) (bit_or x (mask i)),
          get_or-set bits (i / 8) (j / 8) (bit_or x (mask i)) 0 inside,
          e,
          bit_or-bit x (7 - i % 8) IsByte-at (omega arith) (7 - j % 8) (omega arith),
        )
    | inr other ↦
        let x = get_or bits (i / 8) 0 in
        ground (
          arith,
          length-set bits (i / 8) (bit_or x (mask i)),
          get_or-set bits (i / 8) (j / 8) (bit_or x (mask i)) 0 inside,
        )
  ]

set_pieces-has_piece :
    (bits : Bytes) (pieces : List ℕ)
    → All IsByte bits
    → All (λ i. i / 8 < length bits) pieces
    → (out : Bytes) × (set_pieces bits pieces ≡ ok out)
      × (length out ≡ length bits)
      × ((j : ℕ) → j / 8 < length bits → has_piece out j ≡ (contains j pieces || has_piece bits j))
unfolding set_pieces
set_pieces-has_piece bits [] bytes fit = (bits, refl, refl, λ j lt. refl)
set_pieces-has_piece bits (i ∷ pieces) bytes fit =
    let next = with_bit bits i in
    let size : length next ≡ length bits = length-set bits (i / 8) _ in
    let (out, done, same, holds) =
      set_pieces-has_piece next pieces (with_bit-bytes bits i bytes fit.0) (rw size fit.1) in
    (
      out,
      ground (arith, done, fit.0),
      same ∙ size,
      λ j lt.
          ground (arith, holds j (omega (arith, size)), has_piece-with_bit bits i bytes fit.0 j lt),
    )

abbrev zeros : ℕ → Bytes
zeros n = replicate n 0

length-zeros : (n : ℕ) → length (zeros n) ≡ n
length-zeros n = length-replicate n 0

zeros-bytes : (n : ℕ) → All IsByte (zeros n)
zeros-bytes zero = tt
zeros-bytes (suc n) = (omega arith, zeros-bytes n)

zeros-empty : (n j : ℕ) → has_piece (zeros n) j ≡ false
unfolding has_piece
zeros-empty n j =
    let none_set : bit_and 0 (mask j) ≡ 0 = bit_and-bitwise 0 (mask j) in
    ground (arith, get_or-replicate {A = ℕ} n (j / 8) 0, none_set)

pieces_inside :
    (num_pieces : ℕ) (pieces : List ℕ)
    → All (λ i. i < num_pieces) pieces
    → All (λ i. i / 8 < length (zeros ((num_pieces + 7) / 8))) pieces
pieces_inside n [] h = tt
pieces_inside n (i ∷ pieces) h =
    (omega (arith, length-zeros ((n + 7) / 8)), pieces_inside n pieces h.1)

contains-inside :
    (n j : ℕ) (pieces : List ℕ) → All (λ i. i < n) pieces → n ≤ j → contains j pieces ≡ false
contains-inside n j [] h le = refl
contains-inside n j (i ∷ pieces) h le = ground (arith, contains-inside n j pieces h.1 le, h.0)

has_piece-outside : (bits : Bytes) (j : ℕ) → length bits ≤ j / 8 → has_piece bits j ≡ false
unfolding has_piece
has_piece-outside bits j le = ground arith

-- `MakeBitfield` on pieces of the torrent succeeds, has the bytes that the torrent needs, and
-- `hasPiece` finds in it exactly the pieces that it was given.
pub make_bitfield-has_piece :
    (num_pieces : ℕ) (pieces : List ℕ)
    → All (λ i. i < num_pieces) pieces
    → (bits : Bytes) × (make_bitfield num_pieces pieces ≡ ok bits)
      × (length bits ≡ (num_pieces + 7) / 8)
      × ((j : ℕ) → has_piece bits j ≡ contains j pieces)
unfolding make_bitfield
make_bitfield-has_piece n pieces h =
    let m = (n + 7) / 8 in
    let size = length-zeros m in
    let (bits, e, same, holds) =
      set_pieces-has_piece (zeros m) pieces (zeros-bytes m) (pieces_inside n pieces h) in
    let total = same ∙ size in
    (
      bits,
      e,
      total,
      λ j. elim (Bool-cases (leb (length bits) (j / 8))) [
        | inl out ↦
            let le : m ≤ j / 8 = ground (arith, out, total) in
            has_piece-outside bits j (omega (arith, le, total))
            ∙ sym (contains-inside n j pieces h (omega (arith, le)))
        | inr within ↦
            let lt : j / 8 < length (zeros m) = ground (arith, within, same) in
            ground (arith, holds j lt, zeros-empty m j)
      ],
    )
