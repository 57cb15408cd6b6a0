-- ===== src/Peer/Handshake/RoundTrip.antt =====
-- A handshake read back from what was written.
use Prim.Native.Nat.{bit_and, bit_or}
use project_based_learning.Base.{
  ℕ, ◌≡◌, ◌≢◌, refl, sym, ap, ◌∙◌, true, not, ◌&&◌, [], ◌∷◌, ◌++◌, append_assoc, append-nil, arith,
  ◌==◌, length, length-append, length-set, take, drop, get_or, set, Bytes, IsByte, All, lengths,
}
use project_based_learning.Base.Fallible.{ok}
use project_based_learning.Base.Wire.{take_exact, drop_exact}
use project_based_learning.Base.Table.{every_below, every_below_sound}
use project_based_learning.Peer.Handshake.{
  handshake_len, Handshake, IsHandshake, supports_extensions, supports_fast, advertise,
  write_handshake, parse_handshake, read_handshake,
}

-- The reserved bytes with two bits added: bit 4 of the sixth byte and bit 2 of the eighth.
abbrev pub with_bits : Bytes → Bytes
with_bits r =
    take 5 r ++ (bit_or (get_or r 5 0) 0x10 ∷ get_or r 6 0 ∷ bit_or (get_or r 7 0) 0x04 ∷ [])

advertise-with_bits : (r : Bytes) → length r ≡ 8 → advertise r ≡ with_bits r
advertise-with_bits (a ∷ b ∷ c ∷ d ∷ e ∷ f ∷ g ∷ h ∷ []) n = refl
advertise-with_bits r n = absurd (omega arith)

take_all : (n : ℕ) (xs : Bytes) → length xs ≡ n → take n xs ≡ xs
take_all n xs h = ap (take n) (sym (append-nil xs)) ∙ take_exact n xs [] h

set_bit_table :
    every_below
      (λ x. not (bit_and (bit_or x 0x10) 0x10 == 0) && not (bit_and (bit_or x 0x04) 0x04 == 0))
      256
    ≡ true
unfolding every_below
set_bit_table = refl

-- Both extension bits are set in what is advertised.
advertise_bits :
    (r : Bytes)
    → length r ≡ 8
    → All IsByte r
    → (bit_and (get_or (advertise r) 5 0) 0x10 ≢ 0) × (bit_and (get_or (advertise r) 7 0) 0x04 ≢ 0)
advertise_bits (a ∷ b ∷ c ∷ d ∷ e ∷ f ∷ g ∷ h ∷ []) n bytes =
    ground (arith, every_below_sound _ 256 f set_bit_table, every_below_sound _ 256 h set_bit_table)
advertise_bits r n bytes = absurd (omega arith)

length-advertise : (r : Bytes) → length (advertise r) ≡ length r
length-advertise r = length-set (set r 5 _) 7 _ ∙ length-set r 5 _

module _ (h : Handshake) (v : IsHandshake h) where
  parse-write :
      parse_handshake (write_handshake h) ≡ ok (record h { reserved = advertise h.reserved })
  unfolding parse_handshake write_handshake
  parse-write =
      let r = advertise h.reserved in
      let n = length-advertise h.reserved ∙ v.reserved_length in
      let m : length (r ++ h.info_hash) ≡ 28 = omega (lengths, n, v.info_hash_length) in
      let whole = append_assoc r h.info_hash h.peer_id in
      let reserved = take_exact 8 r (h.info_hash ++ h.peer_id) n in
      let info =
        ap (take 20) (drop_exact 8 r (h.info_hash ++ h.peer_id) n)
        ∙ take_exact 20 h.info_hash h.peer_id v.info_hash_length in
      let peer =
        ap (λ x. take 20 (drop 28 x)) (sym whole)
        ∙ ap (take 20) (drop_exact 28 (r ++ h.info_hash) h.peer_id m)
        ∙ take_all 20 h.peer_id v.peer_id_length in
      λ i. ok (record { reserved = reserved i; info_hash = info i; peer_id = peer i })

  length-write : length (write_handshake h) ≡ handshake_len
  unfolding write_handshake
  length-write = omega (
    lengths,
    v.info_hash_length,
    v.peer_id_length,
    v.reserved_length,
    length-advertise h.reserved,
  )

  -- The reader gets the hashes that were written and the reserved bytes with bit 4 of the sixth
  -- and bit 2 of the eighth added, all other bits as they were, so that both extensions count as
  -- supported; what follows stays in the stream.
  pub read-write_handshake :
      (rest : Bytes)
      → let back = record h { reserved = with_bits h.reserved } in
        (read_handshake (write_handshake h ++ rest) ≡ ok (back, rest))
        × (supports_extensions back ≡ true)
        × (supports_fast back ≡ true)
  unfolding read_handshake supports_extensions supports_fast
  read-write_handshake rest =
      let bits = advertise_bits h.reserved v.reserved_length v.reserved_bytes in
      let size = length-write in
      rw (← advertise-with_bits h.reserved v.reserved_length) (
        rw
            (
              take_exact handshake_len (write_handshake h) rest size,
              drop_exact handshake_len (write_handshake h) rest size,
              parse-write,
            )
            (ground (arith, size, length-append (write_handshake h) rest)),
        ground (arith, bits),
        ground (arith, bits),
      )
