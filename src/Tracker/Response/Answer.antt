-- ===== src/Tracker/Response/Answer.antt =====
-- The answer of a tracker, read back.
use project_based_learning.Base.{
  inl, inr, ◌⊎◌, ◌==◌, ◌≢◌, ◌∷◌, false, arith, ◌^◌, ◌<◌, ◌≡◌, refl, ℤ, IsInt64, Option, List, [],
  ◌++◌, length, Bytes, All, codes,
}
use project_based_learning.Base.Outcome.{ok}
use project_based_learning.Bencode.Value.{Entries, str, int, dict, end, entry, encode}
use project_based_learning.Bencode.Access.{lookup}
use project_based_learning.Bencode.RoundTrip.{IsCanonical, decode-encode}
use project_based_learning.Tracker.Response.{Peer, external_ip_of, parse_response}
use project_based_learning.Tracker.Response.Compact.{
  IsPeer, put_peers, parse_compact_peers-put, parse_compact_peers_6-put,
}

-- The answer of a tracker (BEP 3, 7, 23 and 24), with some entries for the peers.
abbrev pub answer : ℤ → ℤ → ℤ → Bytes → Entries → Bytes
answer complete incomplete interval seen peers = encode (
    dict (
      entry (codes "complete") (int complete) (
        entry (codes "external ip") (str seen) (
          entry (codes "incomplete") (int incomplete)
            (entry (codes "interval") (int interval) peers)))))

abbrev pub only_6 : List Peer → Entries
only_6 peers_6 = entry (codes "peers6") (str (put_peers peers_6)) end

abbrev pub both : List Peer → List Peer → Entries
both peers peers_6 = entry (codes "peers") (str (put_peers peers)) (only_6 peers_6)

-- The address, in 16 bytes, that the bytes in an answer say: 4 bytes of IPv4, 16 of IPv6, and none
-- for any other length.
abbrev pub Says : Bytes → Bytes → Type 0
Says seen ip =
    ((length seen ≡ 4) × (ip ≡ 0 ∷ 0 ∷ 0 ∷ 0 ∷ 0 ∷ 0 ∷ 0 ∷ 0 ∷ 0 ∷ 0 ∷ 255 ∷ 255 ∷ seen))
    ⊎ ((length seen ≡ 16) × (ip ≡ seen))
    ⊎ ((length seen ≢ 4) × (length seen ≢ 16) × (ip ≡ []))

Says-external_ip_of : (seen ip : Bytes) → Says seen ip → external_ip_of (Option.some seen) ≡ ip
Says-external_ip_of seen ip (inl (four, e)) = rw (four, e) refl
Says-external_ip_of seen ip (inr (inl (sixteen, e))) = rw (sixteen, e) refl
Says-external_ip_of seen ip (inr (inr (n, m, e))) =
    let a : (length seen == 4) ≡ false = ground (arith, n) in
    let b : (length seen == 16) ≡ false = ground (arith, m) in rw (a, b, e) refl

-- The answer of a tracker with peers of IPv4 and of IPv6 is read back: its numbers, the address
-- seen, and all peers in order; without the key peers, those of IPv6 are dropped.
pub parse_response-answer :
    (parse_ip : Bytes → Option Bytes) (complete incomplete interval : ℤ) (seen ip : Bytes)
    (peers peers_6 : List Peer)
    → Says seen ip
    → IsInt64 complete
    → IsInt64 incomplete
    → IsInt64 interval
    → All (IsPeer 4) peers
    → All (IsPeer 16) peers_6
    → length (answer complete incomplete interval seen (both peers peers_6)) < 2 ^ 63
    → length (answer complete incomplete interval seen (only_6 peers_6)) < 2 ^ 63
    → (parse_response parse_ip (answer complete incomplete interval seen (both peers peers_6))
        ≡ ok (record {
          interval = interval;
          peers = peers ++ peers_6;
          complete = complete;
          incomplete = incomplete;
          external_ip = ip;
        }))
      × (parse_response parse_ip (answer complete incomplete interval seen (only_6 peers_6))
          ≡ ok (record {
            interval = interval;
            peers = [];
            complete = complete;
            incomplete = incomplete;
            external_ip = ip;
          }))
unfolding parse_response lookup
parse_response-answer parse_ip complete incomplete interval seen ip peers peers_6 says hc hi hv h4
      h6 fits fits_6 =
    let head = λ (es : Entries). entry (codes "complete") (int complete) (
      entry (codes "external ip") (str seen) (
        entry (codes "incomplete") (int incomplete)
          (entry (codes "interval") (int interval) es))) in
    let canonical : IsCanonical (dict (head (both peers peers_6))) =
      (refl, hc, (refl, tt, (refl, hi, (refl, hv, (refl, tt, (refl, tt, tt)))))) in
    let canonical_6 : IsCanonical (dict (head (only_6 peers_6))) =
      (refl, hc, (refl, tt, (refl, hi, (refl, hv, (refl, tt, tt))))) in
    rw (← Says-external_ip_of seen ip says) (
      rw
          (
            decode-encode (dict (head (both peers peers_6))) canonical fits,
            parse_compact_peers-put peers h4,
            parse_compact_peers_6-put peers_6 h6,
          )
          refl,
      rw (decode-encode (dict (head (only_6 peers_6))) canonical_6 fits_6) refl,
    )
