-- ===== src/Utp/Sack/Bits.antt =====
-- Setting and reading bits of a mask.
use project_based_learning.Base.{
  ℕ, zero, suc, ◌*◌, ◌/◌, ◌%◌, ◌^◌, ◌<◌, ◌≡◌, ap, ◌∙◌, false, ◌||◌, [], ◌∷◌, arith, ◌==◌, ==_iff,
  if◌then◌else◌, length, length-set, get_or, get_or-set, set, Bool-cases, inl, inr, Bytes, IsByte,
  All, All-get_or, contains, contains-append, ltb,
}
use Prim.Native.Nat.{bit_or}
use project_based_learning.Base.Bits.{bit_or-bit, bit_or-IsByte, All-set}
use project_based_learning.Utp.Sack.{set_bit, get_bit, acked_below, acked_packets}

module _ (sack : Bytes) (i : ℕ) (bytes : All IsByte sack) (lt : i < length sack * 8) where
  abbrev byte : ℕ
  byte = get_or sack (i / 8) 0

  IsByte-at : IsByte byte
  IsByte-at = All-get_or IsByte sack (i / 8) 0 bytes (omega arith)

  -- The mask with the bit set.
  abbrev marked : Bytes
  marked = set sack (i / 8) (bit_or byte (2 ^ (i % 8)))

  set_bit-inside : set_bit sack i ≡ marked
  unfolding set_bit
  set_bit-inside = ground arith

  get_bit-marked : (j : ℕ) → get_bit marked j ≡ (i == j || get_bit sack j)
  unfolding get_bit
  get_bit-marked j = elim (Bool-cases (i / 8 == j / 8)) [
    | inl same ↦
        let e : i / 8 ≡ j / 8 = (==_iff _ _).0 same in
        ground (
          arith,
          length-set sack (i / 8) (bit_or byte (2 ^ (i % 8))),
          get_or-set sack (i / 8) (j / 8) (bit_or byte (2 ^ (i % 8))) 0 (omega arith),
          e,
          bit_or-bit byte (i % 8) IsByte-at (omega arith) (j % 8) (omega arith),
        )
    | inr other ↦ ground (
      arith,
      length-set sack (i / 8) (bit_or byte (2 ^ (i % 8))),
      get_or-set sack (i / 8) (j / 8) (bit_or byte (2 ^ (i % 8))) 0 (omega arith),
    )
  ]

  -- Setting a bit inside a mask of bytes makes that bit readable, leaves every other bit as it
  -- was, and keeps the mask one of bytes, of the same length.
  pub get_bit-set_bit :
      ((j : ℕ) → get_bit (set_bit sack i) j ≡ (i == j || get_bit sack j))
      × All IsByte (set_bit sack i)
      × (length (set_bit sack i) ≡ length sack)
  get_bit-set_bit = rw set_bit-inside (
    get_bit-marked,
    All-set sack (i / 8) (bit_or byte (2 ^ (i % 8))) bytes
        (bit_or-IsByte byte (i % 8) IsByte-at (omega arith)),
    length-set sack (i / 8) (bit_or byte (2 ^ (i % 8))),
  )

acked_below-get_bit :
    (sack : Bytes) (n j : ℕ)
    → contains j (acked_below sack n) ≡ (if ltb j n then get_bit sack j else false)
unfolding acked_below
acked_below-get_bit sack zero j = ground arith
acked_below-get_bit sack (suc n) j = elim (Bool-cases (get_bit sack n)) [
  | inl on ↦ rw on (
      contains-append j (acked_below sack n) (n ∷ [])
      ∙ ground (arith, acked_below-get_bit sack n j, on, same_bit))
  | inr off ↦ rw off (
      contains-append j (acked_below sack n) []
      ∙ ground (arith, acked_below-get_bit sack n j, off, same_bit))
]
  where
    same_bit : n ≡ j → get_bit sack n ≡ get_bit sack j
    same_bit e = ap (get_bit sack) e

-- The offsets that `AckedPackets` lists are exactly those that `GetBit` reports.
pub acked_packets-get_bit :
    (sack : Bytes) (j : ℕ) → contains j (acked_packets sack) ≡ get_bit sack j
unfolding acked_packets
acked_packets-get_bit sack j = acked_below-get_bit sack (length sack * 8) j ∙ outside
  where
    outside : (if ltb j (length sack * 8) then get_bit sack j else false) ≡ get_bit sack j
    outside = unfold get_bit in ground arith
