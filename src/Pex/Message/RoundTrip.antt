-- ===== src/Pex/Message/RoundTrip.antt =====
-- A message read back from its encoding.
use project_based_learning.Base.{
  ℕ, suc, ◌+◌, ◌*◌, ◌/◌, ◌%◌, ◌^◌, ◌<◌, ◌≡◌, refl, sym, some, List, [], ◌∷◌, ◌++◌, arith, lengths,
  length, take, drop, drop-add, Bytes, codes, All, All-map,
}
use project_based_learning.Base.Wire.{put_u16, IsU16, take_exact, drop_exact}
use project_based_learning.Base.Outcome.{ok}
use project_based_learning.Net.{to_4, to_16}
use project_based_learning.Bencode.Value.{str, dict, end, entry, encode}
use project_based_learning.Bencode.RoundTrip.{decode-encode}
use project_based_learning.Bencode.Access.{lookup}
use project_based_learning.Pex.Message.{
  PeerEntry, Message, put_some, encode_compact_4, encode_compact_6, encode_message, u16_of,
  read_peers, peers_in, decode_message,
}

-- A peer with an address of `n` bytes and a port of 16 bits.
abbrev pub IsPeer : ℕ → PeerEntry → Type 0
IsPeer n e = (length e.ip ≡ n) × IsU16 e.port

abbrev pub IsPlain : ℕ → PeerEntry → Type 0
IsPlain n e = (length e.ip ≡ n) × IsU16 e.port × (e.flags ≡ 0)

-- The compact form of peers of one family.
abbrev compact : List PeerEntry → Bytes × Bytes
compact [] = ([], [])
compact (e ∷ entries) = put_some e (some e.ip) (compact entries)

to_4-id : (ip : Bytes) → length ip ≡ 4 → to_4 ip ≡ some ip
unfolding to_4
to_4-id ip h = ground (arith, h)

to_16-id : (ip : Bytes) → length ip ≡ 16 → to_16 ip ≡ some ip
unfolding to_16
to_16-id ip h = ground (arith, h)

compact_4 :
    (entries : List PeerEntry) → All (IsPeer 4) entries → encode_compact_4 entries ≡ compact entries
unfolding encode_compact_4
compact_4 [] v = refl
compact_4 (e ∷ entries) v = rw (to_4-id e.ip v.0.0, compact_4 entries v.1)

compact_6 :
    (entries : List PeerEntry)
    → All (IsPeer 16) entries
    → encode_compact_6 entries ≡ compact entries
unfolding encode_compact_6
compact_6 [] v = refl
compact_6 (e ∷ entries) v = rw (to_16-id e.ip v.0.0, compact_6 entries v.1)

-- The length of an address, and that peers of this length can be counted.
module _ (n : ℕ) (count_div : (k : ℕ) → (n + 2) * k / (n + 2) ≡ k)
    (count_mod : (k : ℕ) → (n + 2) * k % (n + 2) ≡ 0) where
  next_size : (k : ℕ) → (n + 2) * suc k ≡ n + 2 + (n + 2) * k
  next_size k = grind arith

  compact_sizes :
      (entries : List PeerEntry)
      → All (λ e. length e.ip ≡ n) entries
      → (length (compact entries).0 ≡ (n + 2) * length entries)
        × (length (compact entries).1 ≡ length entries)
  compact_sizes [] v = (grind arith, refl)
  compact_sizes (e ∷ entries) v =
      let (peers, flags) = compact_sizes entries v.1 in
      (omega (lengths, peers, v.0, next_size (length entries)), omega (arith, flags))

  -- The parts of the first peer.
  first_peer :
      (e : PeerEntry) (rest : Bytes)
      → IsPeer n e
      → (take n (e.ip ++ (put_u16 e.port ++ rest)) ≡ e.ip)
        × (u16_of (drop n (e.ip ++ (put_u16 e.port ++ rest))) ≡ e.port)
        × (drop (n + 2) (e.ip ++ (put_u16 e.port ++ rest)) ≡ rest)
  first_peer e rest v =
      let tail = put_u16 e.port ++ rest in
      let behind = drop_exact n e.ip tail v.0 in
      (
        take_exact n e.ip tail v.0,
        rw behind (omega (arith, v.1)),
        rw (drop-add n 2 (e.ip ++ tail), behind),
      )

  read_added :
      (entries : List PeerEntry)
      → All (IsPeer n) entries
      → read_peers n (length entries) (compact entries).0 (compact entries).1 ≡ entries
  unfolding read_peers
  read_added [] v = refl
  read_added (e ∷ entries) v =
      let (ip, port, rest) = first_peer e (compact entries).0 v.0 in
      rw (rest, read_added entries v.1)
        λ i. record { ip = ip i; port = port i; flags = e.flags } ∷ entries

  read_plain :
      (entries : List PeerEntry)
      → All (IsPlain n) entries
      → read_peers n (length entries) (compact entries).0 [] ≡ entries
  unfolding read_peers
  read_plain [] v = refl
  read_plain (e ∷ entries) v =
      let (ip, port, rest) = first_peer e (compact entries).0 (v.0.0, v.0.1) in
      let none_set = sym v.0.2 in
      rw (rest, read_plain entries v.1)
        λ i. record { ip = ip i; port = port i; flags = none_set i } ∷ entries

  added_back :
      (entries : List PeerEntry)
      → All (IsPeer n) entries
      → peers_in n (compact entries).0 (compact entries).1 ≡ ok entries
  added_back entries v =
      let (peers, flags) = compact_sizes entries (All-map _ _ (λ e h. h.0) entries v) in
      rw (peers, count_div (length entries), count_mod (length entries), read_added entries v)
        (ground (arith, flags))

  plain_back :
      (entries : List PeerEntry)
      → All (IsPlain n) entries
      → peers_in n (compact entries).0 [] ≡ ok entries
  plain_back entries v =
      let (peers, flags) = compact_sizes entries (All-map _ _ (λ e h. h.0) entries v) in
      rw (peers, count_div (length entries), count_mod (length entries), read_plain entries v)

-- A message with peers of IPv4 in the first lists and of IPv6 in the others, ports of 16 bits, and
-- no flags on dropped peers, whose encoding is below 2^63 bytes, is read back from its encoding.
pub decode-encode_pex :
    (m : Message)
    → All (IsPeer 4) m.added
    → All (IsPlain 4) m.dropped
    → All (IsPeer 16) m.added_6
    → All (IsPlain 16) m.dropped_6
    → length (encode_message m) < 2 ^ 63
    → decode_message (encode_message m) ≡ ok m
unfolding decode_message encode_message encode lookup
decode-encode_pex m a d a6 d6 fits =
    let sorted = entry (codes "added") (str (encode_compact_4 m.added).0) (
      entry (codes "added.f") (str (encode_compact_4 m.added).1) (
        entry (codes "added6") (str (encode_compact_6 m.added_6).0) (
          entry (codes "added6.f") (str (encode_compact_6 m.added_6).1) (
            entry (codes "dropped") (str (encode_compact_4 m.dropped).0)
              (entry (codes "dropped6") (str (encode_compact_6 m.dropped_6).0) end))))) in
    rw
      (decode-encode (dict sorted)
        (refl, tt, (refl, tt, (refl, tt, (refl, tt, (refl, tt, (refl, tt, tt)))))) fits)
      (rw (
        compact_4 m.added a,
        compact_4 m.dropped (All-map _ _ (λ e h. (h.0, h.1)) m.dropped d),
        compact_6 m.added_6 a6,
        compact_6 m.dropped_6 (All-map _ _ (λ e h. (h.0, h.1)) m.dropped_6 d6),
        added_back 4 (λ k. omega arith) (λ k. omega arith) m.added a,
        plain_back 4 (λ k. omega arith) (λ k. omega arith) m.dropped d,
        added_back 16 (λ k. omega arith) (λ k. omega arith) m.added_6 a6,
        plain_back 16 (λ k. omega arith) (λ k. omega arith) m.dropped_6 d6,
      ))
