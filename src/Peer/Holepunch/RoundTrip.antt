-- ===== src/Peer/Holepunch/RoundTrip.antt =====
-- A holepunch message read back from its encoding.
use project_based_learning.Base.{
  ℕ, ◌+◌, ◌≡◌, ◌⊎◌, inl, inr, refl, ◌∷◌, ◌++◌, append_assoc, arith, length, length-append, drop-add,
  Bytes,
}
use project_based_learning.Base.Fallible.{ok}
use project_based_learning.Base.Wire.{put_u16, put_u32, take_exact, drop_exact, IsU16, IsU32}
use project_based_learning.Net.{to_4, to_16}
use project_based_learning.Peer.Holepunch.{
  ipv4, ipv6, HolepunchMessage, addr_bytes, encode_holepunch, decode_sized, decode_holepunch,
}

-- The address has the length that its type says.
abbrev pub HasAddress : HolepunchMessage → Type 0
HasAddress m =
    ((m.addr_type ≡ ipv4) × (length m.ip ≡ 4)) ⊎ ((m.addr_type ≡ ipv6) × (length m.ip ≡ 16))

addr_bytes-eq-ip : (m : HolepunchMessage) → HasAddress m → addr_bytes m ≡ m.ip
unfolding addr_bytes to_4 to_16
addr_bytes-eq-ip m (inl (t, n)) = ground (arith, t, n)
addr_bytes-eq-ip m (inr (t, n)) = ground (arith, t, n)

module _ (m : HolepunchMessage) (port_fits : IsU16 m.port) (code_fits : IsU32 m.err_code)
    (rest : Bytes) where
  abbrev tail : Bytes
  tail = put_u16 m.port ++ put_u32 m.err_code ++ rest

  -- The message as it lies in the data.
  abbrev wire : Bytes
  wire = m.msg_type ∷ m.addr_type ∷ (m.ip ++ tail)

  sized : (n : ℕ) → length m.ip ≡ n → decode_sized n wire ≡ ok m
  unfolding decode_sized
  sized n e =
      rw
        (
          drop-add 2 n wire,
          drop-add (2 + n) 2 wire,
          drop-add 2 n wire,
          drop_exact n m.ip tail e,
          take_exact n m.ip tail e,
        )
        (ground (arith, length-append m.ip tail, e, port_fits, code_fits))

  wire-append :
      encode_holepunch m ++ rest
      ≡ m.msg_type
        ∷ m.addr_type
        ∷ ((addr_bytes m ++ (put_u16 m.port ++ put_u32 m.err_code)) ++ rest)
  unfolding encode_holepunch
  wire-append = refl

  -- A message whose address has the length of its type is read back from its encoding, whatever
  -- follows it.
  pub decode-encode_holepunch : HasAddress m → decode_holepunch (encode_holepunch m ++ rest) ≡ ok m
  unfolding decode_holepunch
  decode-encode_holepunch (inl (t, n)) =
      rw (wire-append, addr_bytes-eq-ip m (inl (t, n)), append_assoc) (ground (arith, t, sized 4 n))
  decode-encode_holepunch (inr (t, n)) =
      rw (wire-append, addr_bytes-eq-ip m (inr (t, n)), append_assoc)
        (ground (arith, t, sized 16 n))
