-- ===== src/Dht/Security/Valid.antt =====
-- Identifiers made for an address are valid for it.
use Prim.Native.Nat.{bit_and, bit_or}
use project_based_learning.Base.{
  ℕ, ◌+◌, ◌*◌, ◌/◌, ◌%◌, ◌^◌, ◌≡◌, ◌≢◌, ◌⊎◌, refl, true, Bool-cases, Option-cases, inl, inr, none,
  arith, ◌==◌, ==_iff, if◌then◌else◌, length, get_or, get_or-set, length-set, set, take, Bytes,
  IsByte, All, All-get_or,
}
use project_based_learning.Base.Table.{every_below, every_below_sound}
use project_based_learning.Net.{to_4, to_16}
use project_based_learning.Dht.Security.{
  v4_mask, v6_mask, byte, is_local_ip, crc_of, apply_bep42, generate_secure_node_id, validate_bep42,
  validate_node_id,
}

-- The last byte keeps its low bits.
low_table :
    every_below (λ b. bit_and (bit_or (bit_and b 0x07) (bit_and b 0xf8)) 0x07 == bit_and b 0x07) 256
    ≡ true
unfolding every_below
low_table = refl

-- The third byte keeps the high bits that are written.
high_table :
    every_below
      (λ t.
        bit_and (bit_or (bit_and (t / 256) 0xf8) (bit_and (t % 256) 0x07)) 0xf8
        == bit_and (t / 256) 0xf8)
      65536
    ≡ true
unfolding every_below
high_table = refl

low_bits :
    (b : ℕ) → IsByte b → bit_and (bit_or (bit_and b 0x07) (bit_and b 0xf8)) 0x07 ≡ bit_and b 0x07
low_bits b h = (==_iff _ _).0 (every_below_sound _ 256 b low_table h)

high_bits :
    (c b : ℕ)
    → IsByte c
    → IsByte b
    → bit_and (bit_or (bit_and c 0xf8) (bit_and b 0x07)) 0xf8 ≡ bit_and c 0xf8
high_bits c b hc hb =
    let t = c * 256 + b in
    let ec : t / 256 ≡ c = omega arith in
    let eb : t % 256 ≡ b = omega arith in
    (==_iff _ _).0 (rw (ec, eb) at (every_below_sound _ 65536 t high_table (omega arith)))

-- An address of 4 or 16 bytes has a form of 16.
long_form : (ip : Bytes) → (length ip ≡ 4) ⊎ (length ip ≡ 16) → to_16 ip ≢ none
unfolding to_16
long_form ip (inl h) = ground (arith, h)
long_form ip (inr h) = ground (arith, h)

module _ (crc : Bytes → ℕ) (id : Bytes) (size : length id ≡ 20) (bytes : All IsByte id) where
  -- The four bytes of an identifier that are written.
  module _ (a b c d : ℕ) where
    abbrev written : Bytes
    written = set (set (set (set id 0 a) 1 b) 2 c) 19 d

    at_place :
        (i : ℕ)
        → get_or written i 0 ≡ (
            if 19 == i
            then d
            else if 2 == i
            then c
            else if 1 == i
            then b
            else if 0 == i
            then a
            else get_or id i 0)
    at_place i =
        let s1 = length-set id 0 a in
        let s2 = length-set (set id 0 a) 1 b in
        let s3 = length-set (set (set id 0 a) 1 b) 2 c in
        rw (
          get_or-set (set (set (set id 0 a) 1 b) 2 c) 19 i d 0 (omega (arith, s1, s2, s3, size)),
          get_or-set (set (set id 0 a) 1 b) 2 i c 0 (omega (arith, s1, s2, size)),
          get_or-set (set id 0 a) 1 i b 0 (omega (arith, s1, size)),
          get_or-set id 0 i a 0 (omega (arith, size)),
        )

  validate-apply :
      (ip mask : Bytes) → validate_bep42 crc (apply_bep42 crc id ip mask) ip mask ≡ true
  unfolding validate_bep42 apply_bep42
  validate-apply ip mask =
      let c = crc_of crc id ip mask in
      let b2 = get_or id 2 0 in
      let b19 = get_or id 19 0 in
      let p0 = byte (c / 2 ^ 24) in
      let p1 = byte (c / 2 ^ 16) in
      let p2 = bit_or (bit_and (byte (c / 2 ^ 8)) 0xf8) (bit_and b2 0x07) in
      let p19 = bit_or (bit_and b19 0x07) (bit_and b19 0xf8) in
      rw
        (
          at_place p0 p1 p2 p19 0,
          at_place p0 p1 p2 p19 1,
          at_place p0 p1 p2 p19 2,
          at_place p0 p1 p2 p19 19,
          low_bits b19 (All-get_or IsByte id 19 0 bytes (omega (arith, size))),
          high_bits (byte (c / 2 ^ 8)) b2 (omega arith)
              (All-get_or IsByte id 2 0 bytes (omega (arith, size))),
        )
        (ground arith)

  -- The identifier made from 20 random bytes for an address of 4 or 16 bytes is valid for it.
  pub validate-generate :
      (ip : Bytes)
      → (length ip ≡ 4) ⊎ (length ip ≡ 16)
      → validate_node_id crc (generate_secure_node_id crc id ip) ip ≡ true
  unfolding validate_node_id generate_secure_node_id
  validate-generate ip h = elim (Bool-cases (is_local_ip ip)) [
    | inl here ↦ rw here
    | inr far ↦ elim (Option-cases (to_4 ip)) [
      | inr (ip4, e) ↦ rw (far, e) (validate-apply ip4 v4_mask)
      | inl e ↦ elim (Option-cases (to_16 ip)) [
        | inr (ip6, e') ↦ rw (far, e, e') (validate-apply (take 8 ip6) v6_mask)
        | inl e' ↦ absurd (long_form ip h e')
      ]
    ]
  ]
