-- ===== src/Tracker/Scrape/Answer.antt =====
-- A tracker that answers a scrape over UDP.
use project_based_learning.Base.{
  ℕ, ◌+◌, ◌*◌, ◌≤◌, ◌≡◌, refl, ap, pos, List, [], ◌∷◌, ◌++◌, true, ◌==◌, arith, lengths, length,
  length-map, map, Bytes, All,
}
use project_based_learning.Base.Wire.{put_u32, IsU32}
use project_based_learning.Base.Outcome.{ok}
use project_based_learning.Tracker.Udp.{Attempt, u32_of, connect_request, udp_connect}
use project_based_learning.Tracker.Udp.Answer.{
  IsU64, Answers, connect_answer, connected-answer, round_trip-answer, u32_of-put,
}
use project_based_learning.Tracker.Scrape.{
  ScrapeResult, scrape_request, read_results, udp_scrape_request, udp_scrape,
}

-- What a tracker knows of a torrent.
pub record Counts : Type 0 where
  pub info_hash : Bytes
  pub complete : ℕ
  pub downloaded : ℕ
  pub incomplete : ℕ

abbrev pub IsCounts : Counts → Type 0
IsCounts c = IsU32 c.complete × IsU32 c.downloaded × IsU32 c.incomplete

-- The packet of BEP 15.
unfoldable pub put_counts : List Counts → Bytes
put_counts [] = []
put_counts (c ∷ cs) =
    put_u32 c.complete ++ (put_u32 c.downloaded ++ (put_u32 c.incomplete ++ put_counts cs))

abbrev pub scrape_answer : ℕ → List Counts → Bytes
scrape_answer txn cs = put_u32 2 ++ (put_u32 txn ++ put_counts cs)

abbrev pub counts_told : Counts → ScrapeResult
counts_told c = record {
  info_hash = c.info_hash;
  complete = pos c.complete;
  downloaded = pos c.downloaded;
  incomplete = pos c.incomplete;
}

abbrev pub hash_of : Counts → Bytes
hash_of c = c.info_hash

read_results-put :
    (cs : List Counts)
    → All IsCounts cs
    → read_results (map hash_of cs) (put_counts cs) ≡ map counts_told cs
unfolding read_results put_counts
read_results-put [] v = refl
read_results-put (c ∷ cs) ((hc, hd, hi), v) =
    let complete = u32_of-put c.complete [] hc in
    let downloaded = u32_of-put c.downloaded [] hd in
    let incomplete = u32_of-put c.incomplete [] hi in
    rw (complete, downloaded, incomplete, read_results-put cs v) refl

put_counts-length : (cs : List Counts) → length (put_counts cs) ≡ 12 * length (map hash_of cs)
unfolding put_counts
put_counts-length [] = refl
put_counts-length (c ∷ cs) = omega (lengths, put_counts-length cs)

-- If the tracker answers the connect after `k` timeouts and the scrape after `j`, of at most 3
-- each, with the packets of BEP 15 and the identifiers of the requests, the scrape of at most 340
-- torrents gives what the tracker knows of each, in the order asked.
pub udp_scrape-answer :
    (net : Bytes → ℕ → Attempt) (txn txn_2 conn_id k j : ℕ) (cs : List Counts)
    → IsU32 txn
    → IsU32 txn_2
    → IsU64 conn_id
    → All IsCounts cs
    → length cs ≤ 340
    → Answers net (connect_request txn) k (connect_answer txn conn_id)
    → Answers net (scrape_request conn_id txn_2 (map hash_of cs)) j (scrape_answer txn_2 cs)
    → udp_scrape net txn txn_2 (map hash_of cs) ≡ ok (map counts_told cs)
unfolding udp_scrape udp_scrape_request udp_connect
udp_scrape-answer net txn txn_2 conn_id k j cs t t_2 c v fits first second =
    let size = put_counts-length cs in
    let count = length-map cs hash_of in
    let one = round_trip-answer net _ 16 k _ first (omega arith) (omega arith) (omega arith) in
    let two =
      round_trip-answer net _ (8 + 12 * length (map hash_of cs)) j _ second (omega arith)
        (omega arith) (omega arith) in
    let same : (u32_of (put_u32 txn_2 ++ []) == txn_2) ≡ true =
      ground (arith, u32_of-put txn_2 [] t_2) in
    rw (one, connected-answer txn conn_id t c, two, same) (ap ok (read_results-put cs v))
