-- ===== src/Pex/Message.antt =====
-- Messages of the peer exchange (pex/message.go).
pub mod RoundTrip
use project_based_learning.Base.{
  ℕ, zero, suc, ◌+◌, ◌*◌, ◌/◌, ◌%◌, ◌^◌, Bool, not, ◌&&◌, Option, none, some, List, [], ◌∷◌, ◌++◌,
  ltb, ◌==◌, if◌then◌else◌, length, take, drop, Bytes, codes,
}
use project_based_learning.Base.Wire.{put_u16}
use project_based_learning.Base.Outcome.{Outcome, ok, err, ◌>>=◌, or_err}
use project_based_learning.Net.{to_4, to_16}
use project_based_learning.Bencode.Value.{Entries, str, dict, end, entry, encode}
use project_based_learning.Bencode.Decode.{decode}
use project_based_learning.Bencode.Access.{as_dict, str_at, from_bencode}

pub record PeerEntry : Type 0 where
  pub ip : Bytes
  pub port : ℕ
  pub flags : ℕ

pub record Message : Type 0 where
  pub added : List PeerEntry
  pub dropped : List PeerEntry
  pub added_6 : List PeerEntry
  pub dropped_6 : List PeerEntry

abbrev pub put_peer : PeerEntry → Bytes → Bytes × Bytes → Bytes × Bytes
put_peer e ip (peers, flags) = (ip ++ (put_u16 e.port ++ peers), e.flags ∷ flags)

-- An entry without an address of the family is left out.
abbrev pub put_some : PeerEntry → Option Bytes → Bytes × Bytes → Bytes × Bytes
put_some e none rest = rest
put_some e (some ip) rest = put_peer e ip rest

unfoldable pub encode_compact_4 : List PeerEntry → Bytes × Bytes
encode_compact_4 [] = ([], [])
encode_compact_4 (e ∷ entries) = put_some e (to_4 e.ip) (encode_compact_4 entries)

unfoldable pub encode_compact_6 : List PeerEntry → Bytes × Bytes
encode_compact_6 [] = ([], [])
encode_compact_6 (e ∷ entries) = put_some e (to_16 e.ip) (encode_compact_6 entries)

abbrev pub to_entries : Message → Entries
to_entries m = entry (codes "added") (str (encode_compact_4 m.added).0) (
    entry (codes "added.f") (str (encode_compact_4 m.added).1) (
      entry (codes "dropped") (str (encode_compact_4 m.dropped).0) (
        entry (codes "added6") (str (encode_compact_6 m.added_6).0) (
          entry (codes "added6.f") (str (encode_compact_6 m.added_6).1)
            (entry (codes "dropped6") (str (encode_compact_6 m.dropped_6).0) end)))))

unfoldable pub encode_message : Message → Bytes
encode_message m = encode (dict (to_entries m))

-- No bytes stand for nil.
abbrev pub or_empty : Option Bytes → Bytes
or_empty none = []
or_empty (some s) = s

abbrev pub get_bytes : Entries → Bytes → Bytes
get_bytes d key = or_empty (str_at key d)

-- `Uint16` of two bytes that are there.
abbrev pub u16_of : Bytes → ℕ
u16_of (a ∷ b ∷ d) = a * 2 ^ 8 + b
u16_of d = 0

abbrev pub first_flags : Bytes → ℕ
first_flags [] = 0
first_flags (f ∷ fs) = f

-- The loop over `n` peers; flags that are missing are 0.
unfoldable pub read_peers : ℕ → ℕ → Bytes → Bytes → List PeerEntry
read_peers ip_len zero peer_bytes flag_bytes = []
read_peers ip_len (suc n) peer_bytes flag_bytes =
    record {
      ip = take ip_len peer_bytes;
      port = u16_of (drop ip_len peer_bytes);
      flags = first_flags flag_bytes;
    }
    ∷ read_peers ip_len n (drop (ip_len + 2) peer_bytes) (drop 1 flag_bytes)

abbrev pub peers_in : ℕ → Bytes → Bytes → Outcome (List PeerEntry)
peers_in ip_len peer_bytes flag_bytes =
    let n = length peer_bytes / (ip_len + 2) in
    if not (length peer_bytes % (ip_len + 2) == 0)
    then err
    else if ltb 0 (length flag_bytes) && not (length flag_bytes == n)
    then err
    else ok (read_peers ip_len n peer_bytes flag_bytes)

unfoldable pub parse_added : Entries → Bytes → Bytes → ℕ → Outcome (List PeerEntry)
parse_added d peers_key flags_key ip_len =
    peers_in ip_len (get_bytes d peers_key) (get_bytes d flags_key)

-- A list without flags.
unfoldable pub parse_peers : Entries → Bytes → ℕ → Outcome (List PeerEntry)
parse_peers d key ip_len = peers_in ip_len (get_bytes d key) []

unfoldable pub decode_message : Bytes → Outcome Message
unfolding parse_added parse_peers
decode_message bytes = do
  val ← from_bencode (decode bytes)
  d ← or_err (as_dict val)
  added ← parse_added d (codes "added") (codes "added.f") 4
  dropped ← parse_peers d (codes "dropped") 4
  added_6 ← parse_added d (codes "added6") (codes "added6.f") 16
  dropped_6 ← parse_peers d (codes "dropped6") 16
  ok (record { added = added; dropped = dropped; added_6 = added_6; dropped_6 = dropped_6 })
