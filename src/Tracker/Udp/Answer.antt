-- ===== src/Tracker/Udp/Answer.antt =====
-- A tracker of BEP 15 that answers within the attempts.
use project_based_learning.Base.{
  ℕ, pos, zero, suc, ◌+◌, ◌^◌, ◌≤◌, ◌<◌, ◌≡◌, Bool, true, false, List, [], ◌++◌, leb, ltb, ◌==◌,
  ◌&&◌, arith, length, take, take_all, Bytes, All,
}
use project_based_learning.Base.Wire.{put_u32, IsU32}
use project_based_learning.Base.Outcome.{ok}
use project_based_learning.Tracker.Response.{Peer, Response}
use project_based_learning.Tracker.Response.Compact.{
  IsPeer, put_peers, put_peers-length, parse_compact_peers-put,
}
use project_based_learning.Tracker.Udp.{
  AnnounceParams, Attempt, timeout, arrived, u32_of, u64_of, put_u64, received, max_retries,
  connect_request, announce_request, connected, announced, attempts, udp_round_trip, udp_connect,
  udp_announce, announce_udp,
}

abbrev pub IsU64 : ℕ → Type 0
IsU64 x = x < 2 ^ 64

-- What a tracker tells of a swarm.
pub record Swarm : Type 0 where
  pub interval : ℕ
  pub complete : ℕ
  pub incomplete : ℕ
  pub peers : List Peer

-- The response that tells it; the protocol has no external address.
abbrev pub told_by : Swarm → Response
told_by r = record {
  interval = pos r.interval;
  peers = r.peers;
  complete = pos r.complete;
  incomplete = pos r.incomplete;
  external_ip = [];
}

-- Its numbers have 32 bits, and its peers fit into one read.
abbrev pub IsResponse : Swarm → Type 0
IsResponse r =
    IsU32 r.interval
    × IsU32 r.complete
    × IsU32 r.incomplete
    × All (IsPeer 4) r.peers
    × (length r.peers ≤ 679)

-- The packets of BEP 15.
abbrev pub connect_answer : ℕ → ℕ → Bytes
connect_answer txn conn_id = put_u32 0 ++ (put_u32 txn ++ put_u64 conn_id)

abbrev pub announce_answer : ℕ → Swarm → Bytes
announce_answer txn r =
    put_u32 1
    ++ (put_u32 txn
        ++ (put_u32 r.interval
            ++ (put_u32 r.incomplete ++ (put_u32 r.complete ++ put_peers r.peers))))

-- After `k` timeouts the packet arrives.
abbrev pub Answers : (Bytes → ℕ → Attempt) → Bytes → ℕ → Bytes → Type 0
Answers net req k d =
    (k < max_retries) × ((i : ℕ) → i < k → net req i ≡ timeout) × (net req k ≡ arrived d)

module _ (net : Bytes → ℕ → Attempt) (req : Bytes) (min_resp : ℕ) (d : Bytes) where
  wait :
      (more n k : ℕ)
      → k < more
      → ((i : ℕ) → i < k → net req (n + i) ≡ timeout)
      → net req (n + k) ≡ arrived d
      → attempts net req min_resp more n ≡ received min_resp (take 4096 d)
  unfolding attempts
  wait zero n k h late here = absurd (omega arith)
  wait (suc more) n zero h late here = let e : n + 0 ≡ n = omega arith in rw (rw e at here)
  wait (suc more) n (suc k) h late here =
      let start : n + 0 ≡ n = omega arith in
      let step : (i : ℕ) → n + suc i ≡ n + 1 + i = λ i. omega arith in
      let first : net req n ≡ timeout = rw start at (late 0 (omega arith)) in
      let later : (i : ℕ) → i < k → net req (n + 1 + i) ≡ timeout =
        λ i less. rw (step i) at (late (suc i) (omega arith)) in
      let there : net req (n + 1 + k) ≡ arrived d = rw (step k) at here in
      rw first (wait more (n + 1) k (omega arith) later there)

pub u32_of-put : (x : ℕ) (rest : Bytes) → IsU32 x → u32_of (put_u32 x ++ rest) ≡ x
u32_of-put x rest h = omega arith

u64_of-put : (x : ℕ) → IsU64 x → u64_of (put_u64 x) ≡ x
u64_of-put x h = omega arith

not_error : (b : Bool) (action : ℕ) → action < 3 → (b && action == 3) ≡ false
not_error b action h = ground arith

pub round_trip-answer :
    (net : Bytes → ℕ → Attempt) (req : Bytes) (min_resp k : ℕ) (d : Bytes)
    → Answers net req k d
    → min_resp ≤ length d
    → length d ≤ 4096
    → u32_of d < 3
    → udp_round_trip net req min_resp ≡ ok d
unfolding udp_round_trip
round_trip-answer net req min_resp k d (h, late, here) enough fits action =
    let late_0 : (i : ℕ) → i < k → net req (0 + i) ≡ timeout =
      λ i less. let e : i ≡ 0 + i = omega arith in rw e at (late i less) in
    let here_0 : net req (0 + k) ≡ arrived d = let e : k ≡ 0 + k = omega arith in rw e at here in
    let w = wait net req min_resp d max_retries 0 k h late_0 here_0 in
    let short : ltb (length d) min_resp ≡ false = ground arith in
    let no_error : (leb 8 (length d) && u32_of d == 3) ≡ false =
      not_error (leb 8 (length d)) (u32_of d) action in
    rw (w, take_all 4096 d fits, short, no_error)

pub connected-answer :
    (txn conn_id : ℕ)
    → IsU32 txn
    → IsU64 conn_id
    → connected txn (connect_answer txn conn_id) ≡ ok conn_id
connected-answer txn conn_id t c =
    let same : (u32_of (put_u32 txn ++ put_u64 conn_id) == txn) ≡ true =
      ground (arith, u32_of-put txn (put_u64 conn_id) t) in
    rw (same, u64_of-put conn_id c)

announced-answer :
    (txn : ℕ) (r : Swarm)
    → IsU32 txn
    → IsResponse r
    → announced txn (announce_answer txn r) ≡ ok (told_by r)
announced-answer txn r t (i, c, n, v, fits) =
    let same : (u32_of (put_u32 txn ++ []) == txn) ≡ true = ground (arith, u32_of-put txn [] t) in
    let interval = u32_of-put r.interval [] i in
    let complete = u32_of-put r.complete [] c in
    let incomplete = u32_of-put r.incomplete [] n in
    rw (same, parse_compact_peers-put r.peers v, interval, complete, incomplete)

-- If the tracker answers the connect after `k` timeouts and the announce after `j`, of at most 3
-- each, with the packets of BEP 15 and the identifiers of the requests, the announce gives the
-- response of the tracker; its numbers have 32 bits and its peers fit into one read.
pub announce_udp-answer :
    (net : Bytes → ℕ → Attempt) (txn txn_2 key : ℕ) (p : AnnounceParams) (path_query : Bytes)
    (conn_id k j : ℕ) (r : Swarm)
    → IsU32 txn
    → IsU32 txn_2
    → IsU64 conn_id
    → IsResponse r
    → Answers net (connect_request txn) k (connect_answer txn conn_id)
    → Answers net (announce_request conn_id txn_2 key p path_query) j (announce_answer txn_2 r)
    → announce_udp net txn txn_2 key p path_query ≡ ok (told_by r)
unfolding announce_udp udp_connect udp_announce
announce_udp-answer net txn txn_2 key p path_query conn_id k j r t t_2 c v first second =
    let size = put_peers-length r.peers v.3 in
    let one = round_trip-answer net _ 16 k _ first (omega arith) (omega arith) (omega arith) in
    let two = round_trip-answer net _ 20 j _ second (omega arith) (omega arith) (omega arith) in
    rw (one, connected-answer txn conn_id t c, two) (announced-answer txn_2 r t_2 v)
