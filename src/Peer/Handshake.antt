-- ===== src/Peer/Handshake.antt =====
-- The handshake (peer/message.go, lines 18 to 21 and 48 to 107).
pub mod RoundTrip
use Prim.Native.Nat.{bit_and, bit_or}
use project_based_learning.Base.{
  ℕ, zero, suc, ◌+◌, ◌≤◌, ◌<◌, ◌≡◌, refl, ap, Bool, true, false, not, ◌&&◌, [], ◌∷◌, ◌++◌, arith,
  ltb, ◌==◌, if◌then◌else◌, length, length-append, length-set, take, drop, get_or, set, Bytes,
  IsByte, All, codes, lengths, append_assoc, ne→==_false,
}
use project_based_learning.Base.Fallible.{Fallible, ok, err, ◌>>=◌}
use project_based_learning.Base.Wire.{bytes_eq}

abbrev pub protocol_str : Bytes
protocol_str = codes "BitTorrent protocol"

-- 1 + len(protocolStr) + 8 + 20 + 20
abbrev pub handshake_len : ℕ
handshake_len = 68

pub record Handshake : Type 0 where
  pub info_hash : Bytes
  pub peer_id : Bytes
  pub reserved : Bytes

-- The lengths of the three arrays, and the reserved bytes are bytes.
pub record IsHandshake (h : Handshake) : Type 0 where
  pub info_hash_length : length h.info_hash ≡ 20
  pub peer_id_length : length h.peer_id ≡ 20
  pub reserved_length : length h.reserved ≡ 8
  pub reserved_bytes : All IsByte h.reserved

unfoldable pub supports_extensions : Handshake → Bool
supports_extensions h = not (bit_and (get_or h.reserved 5 0) 0x10 == 0)

unfoldable pub supports_fast : Handshake → Bool
supports_fast h = not (bit_and (get_or h.reserved 7 0) 0x04 == 0)

-- `buf[25] |= 0x10` and `buf[27] |= 0x04`, on the reserved bytes that lie at 20.
abbrev pub advertise : Bytes → Bytes
advertise r = let s = set r 5 (bit_or (get_or r 5 0) 0x10) in set s 7 (bit_or (get_or s 7 0) 0x04)

unfoldable pub write_handshake : Handshake → Bytes
write_handshake h = (19 ∷ protocol_str) ++ (advertise h.reserved ++ (h.info_hash ++ h.peer_id))

unfoldable pub parse_handshake : Bytes → Fallible Handshake
parse_handshake buf =
    if not (get_or buf 0 0 == length protocol_str)
    then err
    else if not (bytes_eq (take 19 (drop 1 buf)) protocol_str)
    then err
    else ok (record {
      reserved = take 8 (drop 20 buf);
      info_hash = take 20 (drop 28 buf);
      peer_id = take 20 (drop 48 buf);
    })

-- `ReadHandshake` off a stream that ends where the list ends, with what it leaves.
unfoldable pub read_handshake : Bytes → Fallible (Handshake × Bytes)
read_handshake s =
    if ltb (length s) handshake_len
    then err
    else parse_handshake (take handshake_len s) >>= λ h. ok (h, drop handshake_len s)
