-- ===== src/Tracker/Tests.antt =====
-- Announces at concrete tiers and packets.
use project_based_learning.Base.{
  inl, ℕ, ◌≡◌, ◌⊎◌, refl, pos, negsuc, Option, none, some, List, map, [], ◌∷◌, ◌++◌, ◌==◌, ◌&&◌,
  if◌then◌else◌, replicate, arith, Bytes, codes,
}
use project_based_learning.Base.Wire.{bytes_eq}
use project_based_learning.Base.Outcome.{ok}
use project_based_learning.Bencode.Value.{encode, encode_str}
use project_based_learning.Bencode.Decimal.{append_int, decimal}
use project_based_learning.Net.{v4_prefix}
use project_based_learning.Tracker.Response.{Peer, parse_response}
use project_based_learning.Tracker.Response.Compact.{put_peers}
use project_based_learning.Tracker.Response.Answer.{answer, only_6, both, parse_response-answer}
use project_based_learning.Tracker.Scrape.{concat_hashes, scrape_request, udp_scrape}
use project_based_learning.Tracker.Scrape.Answer.{
  Counts, hash_of, counts_told, put_counts, scrape_answer, udp_scrape-answer,
}
use project_based_learning.Tracker.Udp.{
  AnnounceParams, Attempt, timeout, arrived, connect_request, announce_request, announce_udp,
}
use project_based_learning.Tracker.Udp.Answer.{
  Swarm, told_by, connect_answer, announce_answer, announce_udp-answer,
}
use project_based_learning.Tracker.Tiered.{Tiers, response, announce, try_tiers, try_tier, promote}
use project_based_learning.Tracker.Tiered.Cascade.{Served, Unserved, announce_cases}

abbrev two_tiers : Tiers
two_tiers =
    (codes "udp://a" ∷ codes "udp://b" ∷ [])
    ∷ (codes "udp://c" ∷ codes "udp://d" ∷ codes "udp://e" ∷ [])
    ∷ []

-- Only the last tracker answers, with its index.
abbrev only_last : ℕ → ℕ → Bytes → Option ℕ
only_last t i url = if t == 1 && i == 2 then some 12 else none

announce_cases_example : Unserved only_last two_tiers ⊎ Served only_last two_tiers
announce_cases_example = announce_cases only_last two_tiers

last_is_first : announce only_last two_tiers ≡ (
  response 12,
  (codes "udp://a" ∷ codes "udp://b" ∷ [])
      ∷ (codes "udp://e" ∷ codes "udp://c" ∷ codes "udp://d" ∷ [])
      ∷ [],
)
unfolding announce try_tiers try_tier promote
last_is_first = refl

abbrev params : AnnounceParams
params = record {
  info_hash = replicate 20 1;
  peer_id = replicate 20 2;
  port = 6881;
  uploaded = pos 0;
  downloaded = pos 5;
  left = negsuc 0;
  event = codes "started";
  num_want = pos 0;
}

abbrev two_peers : Swarm
two_peers = record {
  interval = 1800;
  peers =
      record { ip = 10 ∷ 0 ∷ 0 ∷ 1 ∷ []; port = 6881 }
      ∷ record { ip = 10 ∷ 0 ∷ 0 ∷ 2 ∷ []; port = 51413 }
      ∷ [];
  complete = 1;
  incomplete = 2;
}

-- The first connect is lost.
abbrev lossy : Bytes → ℕ → Attempt
lossy req i =
    if bytes_eq req (connect_request 7)
    then if i == 0 then timeout else arrived (connect_answer 7 99)
    else arrived (announce_answer 8 two_peers)

announce_udp-answer_example :
    announce_udp lossy 7 8 9 params (codes "/announce") ≡ ok (told_by two_peers)
unfolding connect_request announce_request put_peers
announce_udp-answer_example =
    announce_udp-answer lossy 7 8 9 params (codes "/announce") 99 1 0 two_peers (omega arith)
      (omega arith) (omega arith)
      (
        omega arith,
        omega arith,
        omega arith,
        ((refl, omega arith), ((refl, omega arith), tt)),
        omega arith,
      )
      (omega arith, (λ i less. let e : 0 ≡ i = omega arith in rw (← e) refl), refl)
      (omega arith, (λ i less. absurd (omega arith)), refl)

abbrev long_path : Bytes
long_path = replicate 300 47

-- No text is the address of a peer.
abbrev no_ip : Bytes → Option Bytes
no_ip s = none

abbrev peer_6 : List Peer
peer_6 = record { ip = replicate 16 1; port = 6881 } ∷ []

abbrev seen_ip : Bytes
seen_ip = 10 ∷ 0 ∷ 0 ∷ 7 ∷ []

parse_response-answer_example :
    (parse_response no_ip (answer (pos 1) (pos 2) (pos 1800) seen_ip (both two_peers.peers peer_6))
      ≡ ok (record {
        interval = pos 1800;
        peers = two_peers.peers ++ peer_6;
        complete = pos 1;
        incomplete = pos 2;
        external_ip = v4_prefix ++ seen_ip;
      }))
    × (parse_response no_ip (answer (pos 1) (pos 2) (pos 1800) seen_ip (only_6 peer_6))
        ≡ ok (record {
          interval = pos 1800;
          peers = [];
          complete = pos 1;
          incomplete = pos 2;
          external_ip = v4_prefix ++ seen_ip;
        }))
unfolding put_peers encode encode_str append_int decimal
parse_response-answer_example =
    parse_response-answer no_ip (pos 1) (pos 2) (pos 1800) seen_ip (v4_prefix ++ seen_ip)
      two_peers.peers peer_6 (inl (refl, refl)) (omega arith) (omega arith) (omega arith)
      ((refl, omega arith), ((refl, omega arith), tt)) ((refl, omega arith), tt) (omega arith)
      (omega arith)

abbrev swarms : List Counts
swarms =
    record { info_hash = replicate 20 1; complete = 4; downloaded = 9; incomplete = 3 }
    ∷ record { info_hash = replicate 20 2; complete = 0; downloaded = 0; incomplete = 1 }
    ∷ []

-- The first scrape is lost.
abbrev lossy_scrape : Bytes → ℕ → Attempt
lossy_scrape req i =
    if bytes_eq req (connect_request 7)
    then arrived (connect_answer 7 99)
    else if i == 0
    then timeout
    else arrived (scrape_answer 8 swarms)

udp_scrape-answer_example :
    udp_scrape lossy_scrape 7 8 (map hash_of swarms) ≡ ok (map counts_told swarms)
unfolding connect_request scrape_request concat_hashes put_counts
udp_scrape-answer_example =
    udp_scrape-answer lossy_scrape 7 8 99 0 1 swarms (omega arith) (omega arith) (omega arith)
      ((omega arith, omega arith, omega arith), ((omega arith, omega arith, omega arith), tt))
      (omega arith) (omega arith, (λ i less. absurd (omega arith)), refl)
      (omega arith, (λ i less. let e : 0 ≡ i = omega arith in rw (← e) refl), refl)
