-- ===== src/Download/Piece/Unchoke.antt =====
-- The bitfield after an unchoke.
use Prim.Native.Nat.{bit_and}
use project_based_learning.Base.{
  ℕ, zero, suc, ◌+◌, ◌-◌, ◌*◌, ◌/◌, ◌%◌, ◌^◌, ◌<◌, ◌≡◌, ◌≢◌, refl, ap, ◌∙◌, Bool, true, false, not,
  Option, none, some, List, [], ◌∷◌, ◌++◌, ltb, leb, ◌==◌, arith, length, length-set,
  length-replicate, get_or, get_or-set, replicate, Bytes, All, Bool-cases, inl, inr,
}
use project_based_learning.Base.Fallible.{ok}
use project_based_learning.Base.Table.{every_below, every_below_sound}
use project_based_learning.Base.Bits.{same_bool, same_bool→eq}
use project_based_learning.Peer.MsgId
use project_based_learning.Peer.Message.{Message, new_unchoke}
use project_based_learning.Download.Bitfield.{mask, has_piece}
use project_based_learning.Download.Piece.{
  make_full_bitfield, or_full, wait, on_negotiation, negotiate, negotiate_unchoke,
}

-- Bit `j` of the last byte is set if it is one of the first `8 - spare`.
abbrev full_test : ℕ → ℕ → Bool
full_test spare j =
    same_bool (not (bit_and (255 * 2 ^ spare % 256) (2 ^ (7 - j)) == 0)) (ltb j (8 - spare))

full_table : every_below (λ t. full_test (t / 8) (t % 8)) 64 ≡ true
unfolding every_below
full_table = refl

full_bit :
    (spare j : ℕ)
    → spare < 8
    → j < 8
    → not (bit_and (255 * 2 ^ spare % 256) (2 ^ (7 - j)) == 0) ≡ ltb j (8 - spare)
full_bit spare j hs hj =
    let t = spare * 8 + j in
    let es : t / 8 ≡ spare = omega arith in
    let ej : t % 8 ≡ j = omega arith in
    same_bool→eq _ _ (
      rw (es, ej) at
        (every_below_sound (λ t. full_test (t / 8) (t % 8)) 64 t full_table (omega arith)))

get_or-replicate_in : (n i a d : ℕ) → i < n → get_or (replicate n a) i d ≡ a
get_or-replicate_in zero i a d h = absurd (omega arith)
get_or-replicate_in (suc n) zero a d h = refl
get_or-replicate_in (suc n) (suc i) a d h = get_or-replicate_in n i a d (omega arith)

-- A whole byte has each bit.
ones_bit : (i : ℕ) → not (bit_and 255 (mask i) == 0) ≡ true
ones_bit i =
    let e = full_bit 0 (i % 8) (omega arith) (omega arith) in
    let low : ltb (i % 8) 8 ≡ true = ground arith in e ∙ low

make_full_bitfield-has_piece : (n i : ℕ) → has_piece (make_full_bitfield n) i ≡ ltb i n
unfolding has_piece make_full_bitfield
make_full_bitfield-has_piece n i =
    let bytes = (n + 7) / 8 in
    let spare = bytes * 8 - n in
    let ones : Bytes = replicate bytes 255 in
    let last = 255 * 2 ^ spare % 256 in
    let ones_length : length ones ≡ bytes = length-replicate bytes 255 in
    elim (Bool-cases (leb bytes (i / 8))) [
      | inl past ↦
          let out : ltb i n ≡ false = ground arith in
          elim (Bool-cases (ltb 0 spare)) [
            | inl cut ↦ rw (cut, length-set ones (bytes - 1) last, ones_length, past, out) refl
            | inr whole ↦ rw (whole, ones_length, past, out) refl
          ]
      | inr inside ↦
          let less : i / 8 < bytes = ground arith in
          let one : get_or ones (i / 8) 0 ≡ 255 = get_or-replicate_in bytes (i / 8) 255 0 less in
          elim (Bool-cases (ltb 0 spare)) [
            | inl cut ↦
                let size = length-set ones (bytes - 1) last in
                let at = get_or-set ones (bytes - 1) (i / 8) last 0 (omega arith) in
                elim (Bool-cases (bytes - 1 == i / 8)) [
                  | inl here ↦
                      let place : bytes - 1 ≡ i / 8 = ground arith in
                      let short : spare < 8 = omega arith in
                      let bound : ltb (i % 8) (8 - spare) ≡ ltb i n = ground arith in
                      rw (cut, size, ones_length, inside, at, here)
                        (full_bit spare (i % 8) short (omega arith) ∙ bound)
                  | inr there ↦
                      let place : bytes - 1 ≢ i / 8 = ground arith in
                      let in_it : ltb i n ≡ true = ground arith in
                      rw (cut, size, ones_length, inside, at, there, one, ones_bit i, in_it) refl
                ]
            | inr whole ↦
                let in_it : ltb i n ≡ true = ground arith in
                rw (whole, ones_length, inside, one, ones_bit i, in_it) refl
          ]
    ]

-- A message that neither ends the wait nor carries a bitfield.
abbrev pub IsSilent : Option Message → Type 0
IsSilent none = Unit {0}
IsSilent (some m) = (m.id ≢ MsgId.unchoke) × (m.id ≢ MsgId.bitfield) × (m.id ≢ MsgId.choke)

silent_turn :
    (n : ℕ) (m : Message) (bitfield : Option Bytes)
    → IsSilent (some m)
    → or_full n bitfield ≡ make_full_bitfield n
    → (next : Option Bytes) × (on_negotiation true n m bitfield ≡ wait next)
      × (or_full n next ≡ make_full_bitfield n)
silent_turn n m bitfield (u, b, c) full =
    let eu : (m.id == MsgId.unchoke) ≡ false = ground (arith, u) in
    let eb : (m.id == MsgId.bitfield) ≡ false = ground (arith, b) in
    let ec : (m.id == MsgId.choke) ≡ false = ground (arith, c) in
    elim (Bool-cases (m.id == MsgId.have_all)) [
      | inl all ↦ elim (Bool-cases (n == 0)) [
        | inl empty ↦ (none, rw (eu, eb, all, empty) refl, refl)
        | inr more ↦ (some (make_full_bitfield n), rw (eu, eb, all, more) refl, refl)
      ]
      | inr not_all ↦ elim (Bool-cases (m.id == MsgId.have_none)) [
        | inl nothing ↦ (none, rw (eu, eb, not_all, nothing) refl, refl)
        | inr other ↦ (bitfield, rw (eu, eb, not_all, other, ec) refl, full)
      ]
    ]

negotiate-silent :
    (n : ℕ) (bitfield : Option Bytes) (before after : List (Option Message))
    → All IsSilent before
    → or_full n bitfield ≡ make_full_bitfield n
    → negotiate true n bitfield (before ++ some new_unchoke ∷ after) ≡ ok (make_full_bitfield n)
unfolding negotiate
negotiate-silent n bitfield [] after quiet full = ap ok full
negotiate-silent n bitfield (none ∷ before) after quiet full =
    negotiate-silent n bitfield before after quiet.1 full
negotiate-silent n bitfield (some m ∷ before) after quiet full =
    let (next, turn, still) = silent_turn n m bitfield quiet.0 full in
    rw turn (negotiate-silent n next before after quiet.1 still)

-- A peer that unchokes, without a choke or a bitfield before, counts as one that has every piece
-- of the torrent, and no other, whether it said that it has all, none or nothing.
pub negotiate_unchoke-full :
    (n : ℕ) (before after : List (Option Message))
    → All IsSilent before
    → (bits : Bytes) × (negotiate_unchoke true n (before ++ some new_unchoke ∷ after) ≡ ok bits)
      × ((i : ℕ) → has_piece bits i ≡ ltb i n)
unfolding negotiate_unchoke
negotiate_unchoke-full n before after quiet = (
  make_full_bitfield n,
  negotiate-silent n none before after quiet refl,
  make_full_bitfield-has_piece n,
)
