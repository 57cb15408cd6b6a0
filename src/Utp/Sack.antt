-- ===== src/Utp/Sack.antt =====
-- Selective acknowledgements: bits counted from the lowest of each byte (utp/sack.go). An offset is
-- a number; the code ignores a negative one as it does one past the end.
pub mod Bits
use Prim.Native.Nat.{bit_and, bit_or}
use project_based_learning.Base.{
  ℕ, zero, suc, ◌+◌, ◌*◌, ◌/◌, ◌%◌, ◌^◌, Bool, false, not, List, [], ◌∷◌, ◌++◌, leb, ◌==◌,
  if◌then◌else◌, length, get_or, set, replicate, Bytes,
}

-- `n <= 0` is `n == 0` here: a negative count gives the same four bytes.
unfoldable pub new_selective_ack : ℕ → Bytes
new_selective_ack n = if n == 0 then replicate 4 0 else replicate (((n + 7) / 8 + 3) / 4 * 4) 0

unfoldable pub set_bit : Bytes → ℕ → Bytes
set_bit sack offset =
    if leb (length sack * 8) offset
    then sack
    else set sack (offset / 8) (bit_or (get_or sack (offset / 8) 0) (2 ^ (offset % 8)))

unfoldable pub get_bit : Bytes → ℕ → Bool
get_bit sack offset =
    if leb (length sack * 8) offset
    then false
    else not (bit_and (get_or sack (offset / 8) 0) (2 ^ (offset % 8)) == 0)

-- The loop of `AckedPackets` over the offsets below `n`.
unfoldable pub acked_below : Bytes → ℕ → List ℕ
acked_below sack zero = []
acked_below sack (suc n) = acked_below sack n ++ (if get_bit sack n then n ∷ [] else [])

unfoldable pub acked_packets : Bytes → List ℕ
acked_packets sack = acked_below sack (length sack * 8)
