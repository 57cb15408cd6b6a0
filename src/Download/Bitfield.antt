-- ===== src/Download/Bitfield.antt =====
-- Bitfields, most significant bit first (download/picker.go, lines 197 to 220).
pub mod Members
use Prim.Native.Nat.{bit_and, bit_or}
use project_based_learning.Base.{
  ℕ, ◌+◌, ◌-◌, ◌/◌, ◌%◌, ◌^◌, Bool, true, false, not, List, [], ◌∷◌, leb, ◌==◌, if◌then◌else◌,
  length, get_or, set, replicate, Bytes,
}
use project_based_learning.Base.Fallible.{Fallible, ok, panic}

-- `1 << (7 - index % 8)`
abbrev pub mask : ℕ → ℕ
mask index = 2 ^ (7 - index % 8)

unfoldable pub has_piece : Bytes → ℕ → Bool
has_piece bits index =
    if leb (length bits) (index / 8)
    then false
    else not (bit_and (get_or bits (index / 8) 0) (mask index) == 0)

-- The loop of `MakeBitfield`; an index past the last byte panics.
unfoldable pub set_pieces : Bytes → List ℕ → Fallible Bytes
set_pieces bits [] = ok bits
set_pieces bits (i ∷ pieces) =
    let rest = set_pieces (set bits (i / 8) (bit_or (get_or bits (i / 8) 0) (mask i))) pieces in
    if leb (length bits) (i / 8) then panic else rest

unfoldable pub make_bitfield : ℕ → List ℕ → Fallible Bytes
make_bitfield num_pieces pieces = set_pieces (replicate ((num_pieces + 7) / 8) 0) pieces
