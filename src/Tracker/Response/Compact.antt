-- ===== src/Tracker/Response/Compact.antt =====
-- Compact peers read back from their encoding.
use project_based_learning.Base.{
  ℕ, ◌+◌, ◌*◌, ◌/◌, ◌%◌, ◌≡◌, refl, ap, ◌∙◌, true, List, [], ◌∷◌, ◌++◌, ◌==◌, arith, lengths,
  length, drop, drop-add, Bytes, All,
}
use project_based_learning.Base.Wire.{put_u16, IsU16, take_exact, drop_exact}
use project_based_learning.Base.Outcome.{ok}
use project_based_learning.Tracker.Response.{
  Peer, u16_of, read_peers, parse_compact_peers, parse_compact_peers_6,
}

-- An address of the family and a port of 16 bits.
abbrev pub IsPeer : ℕ → Peer → Type 0
IsPeer ip_len p = (length p.ip ≡ ip_len) × IsU16 p.port

-- The compact form of BEP 23 and BEP 7.
unfoldable pub put_peers : List Peer → Bytes
put_peers [] = []
put_peers (p ∷ peers) = p.ip ++ (put_u16 p.port ++ put_peers peers)

module _ (ip_len : ℕ) where
  read_peers-put :
      (peers : List Peer)
      → All (IsPeer ip_len) peers
      → read_peers ip_len (length peers) (put_peers peers) ≡ peers
  unfolding read_peers put_peers
  read_peers-put [] v = refl
  read_peers-put (p ∷ peers) ((ip_length, port_fits), v) =
      let rest = put_u16 p.port ++ put_peers peers in
      let ip = take_exact ip_len p.ip rest ip_length in
      let port : u16_of (drop ip_len (p.ip ++ rest)) ≡ p.port =
        rw (drop_exact ip_len p.ip rest ip_length) (omega (arith, port_fits)) in
      let next : drop (ip_len + 2) (p.ip ++ rest) ≡ put_peers peers =
        rw (drop-add ip_len 2 (p.ip ++ rest), drop_exact ip_len p.ip rest ip_length) refl in
      let more = ap (read_peers ip_len (length peers)) next ∙ read_peers-put peers v in
      λ i. record { ip = ip i; port = port i } ∷ more i

pub put_peers-length :
    (peers : List Peer) → All (IsPeer 4) peers → length (put_peers peers) ≡ 6 * length peers
unfolding put_peers
put_peers-length [] v = refl
put_peers-length (p ∷ peers) ((ip_length, port_fits), v) =
    omega (lengths, ip_length, put_peers-length peers v)

put_peers_6-length :
    (peers : List Peer) → All (IsPeer 16) peers → length (put_peers peers) ≡ 18 * length peers
unfolding put_peers
put_peers_6-length [] v = refl
put_peers_6-length (p ∷ peers) ((ip_length, port_fits), v) =
    omega (lengths, ip_length, put_peers_6-length peers v)

pub parse_compact_peers-put :
    (peers : List Peer) → All (IsPeer 4) peers → parse_compact_peers (put_peers peers) ≡ ok peers
unfolding parse_compact_peers
parse_compact_peers-put peers v =
    let size = put_peers-length peers v in
    let whole : (length (put_peers peers) % 6 == 0) ≡ true = ground arith in
    let count : length (put_peers peers) / 6 ≡ length peers = omega arith in
    rw (whole, count, read_peers-put 4 peers v) refl

pub parse_compact_peers_6-put :
    (peers : List Peer) → All (IsPeer 16) peers → parse_compact_peers_6 (put_peers peers) ≡ ok peers
unfolding parse_compact_peers_6
parse_compact_peers_6-put peers v =
    let size = put_peers_6-length peers v in
    let whole : (length (put_peers peers) % 18 == 0) ≡ true = ground arith in
    let count : length (put_peers peers) / 18 ≡ length peers = omega arith in
    rw (whole, count, read_peers-put 16 peers v) refl
