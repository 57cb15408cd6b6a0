-- ===== src/Tracker/Scrape.antt =====
-- Scrapes (tracker/scrape.go): the answers over HTTP, and the exchange over UDP.
pub mod Answer
use project_based_learning.Base.{
  ℕ, ◌+◌, ◌*◌, ℤ, pos, Bool, not, Option, none, some, List, [], ◌∷◌, ◌++◌, ◌==◌, if◌then◌else◌,
  length, drop, Bytes, codes,
}
use project_based_learning.Base.Wire.{put_u32}
use project_based_learning.Base.Outcome.{Outcome, ok, err, ◌>>=◌, or_err}
use project_based_learning.Bencode.Value.{Entries}
use project_based_learning.Bencode.Decode.{decode}
use project_based_learning.Bencode.Access.{as_dict, str_at, int_at, dict_at, is_some, from_bencode}
use project_based_learning.Tracker.Response.{or_zero}
use project_based_learning.Tracker.Udp.{Attempt, u32_of, put_u64, udp_round_trip, udp_connect}

pub record ScrapeResult : Type 0 where
  pub info_hash : Bytes
  pub complete : ℤ
  pub downloaded : ℤ
  pub incomplete : ℤ

abbrev pub no_result : Bytes → ScrapeResult
no_result ih = record { info_hash = ih; complete = pos 0; downloaded = pos 0; incomplete = pos 0 }

-- What an entry of the files says, if it is a dict.
abbrev pub result_of : Bytes → Option Entries → ScrapeResult
result_of ih none = no_result ih
result_of ih (some ed) = record {
  info_hash = ih;
  complete = or_zero (int_at (codes "complete") ed);
  downloaded = or_zero (int_at (codes "downloaded") ed);
  incomplete = or_zero (int_at (codes "incomplete") ed);
}

unfoldable pub file_results : Entries → List Bytes → List ScrapeResult
file_results files [] = []
file_results files (ih ∷ info_hashes) =
    result_of ih (dict_at ih files) ∷ file_results files info_hashes

unfoldable pub parse_scrape_response : Bytes → List Bytes → Outcome (List ScrapeResult)
parse_scrape_response bytes info_hashes = do
  val ← from_bencode (decode bytes)
  d ← or_err (as_dict val)
  files ←
      if is_some (str_at (codes "failure reason") d)
      then err
      else or_err (dict_at (codes "files") d)
  ok (file_results files info_hashes)

abbrev pub action_scrape : ℕ
action_scrape = 2

unfoldable pub concat_hashes : List Bytes → Bytes
concat_hashes [] = []
concat_hashes (ih ∷ info_hashes) = ih ++ concat_hashes info_hashes

-- A hash has 20 bytes.
unfoldable pub scrape_request : ℕ → ℕ → List Bytes → Bytes
scrape_request conn_id txn info_hashes =
    put_u64 conn_id ++ (put_u32 action_scrape ++ (put_u32 txn ++ concat_hashes info_hashes))

unfoldable pub read_results : List Bytes → Bytes → List ScrapeResult
read_results [] d = []
read_results (ih ∷ info_hashes) d =
    record {
      info_hash = ih;
      complete = pos (u32_of d);
      downloaded = pos (u32_of (drop 4 d));
      incomplete = pos (u32_of (drop 8 d));
    }
    ∷ read_results info_hashes (drop 12 d)

abbrev pub scraped : ℕ → List Bytes → Bytes → Outcome (List ScrapeResult)
scraped txn info_hashes resp =
    if not (u32_of resp == action_scrape)
    then err
    else if not (u32_of (drop 4 resp) == txn)
    then err
    else ok (read_results info_hashes (drop 8 resp))

module _ (net : Bytes → ℕ → Attempt) where
  unfoldable pub udp_scrape_request : ℕ → ℕ → List Bytes → Outcome (List ScrapeResult)
  udp_scrape_request conn_id txn info_hashes =
      udp_round_trip net (scrape_request conn_id txn info_hashes) (8 + 12 * length info_hashes)
      >>= scraped txn info_hashes

  unfoldable pub udp_scrape : ℕ → ℕ → List Bytes → Outcome (List ScrapeResult)
  udp_scrape txn txn_2 info_hashes =
      udp_connect net txn >>= λ conn_id. udp_scrape_request conn_id txn_2 info_hashes
