-- ===== src/Tracker/Query.antt =====
-- Binary values in the query of a tracker URL (tracker/tracker.go and tracker/scrape.go).
pub mod RoundTrip
use project_based_learning.Base.{
  ℕ, ◌+◌, ◌/◌, ◌%◌, Bool, ◌&&◌, ◌||◌, List, [], ◌∷◌, ◌++◌, ltb, leb, ◌==◌, if◌then◌else◌, length,
  Bytes, codes,
}

unfoldable pub is_unreserved : ℕ → Bool
is_unreserved c =
    (leb 65 c && leb c 90)
    || ((leb 97 c && leb c 122)
        || ((leb 48 c && leb c 57) || (c == 45 || (c == 95 || (c == 46 || c == 126)))))

-- A digit of `%02X`.
abbrev pub hex_digit : ℕ → ℕ
hex_digit d = if ltb d 10 then 48 + d else 55 + d

unfoldable pub percent_encode_bytes : Bytes → Bytes
percent_encode_bytes [] = []
percent_encode_bytes (c ∷ b) =
    let rest = percent_encode_bytes b in
    if is_unreserved c then c ∷ rest else 37 ∷ hex_digit (c / 16) ∷ hex_digit (c % 16) ∷ rest

-- The query of a scrape, from what is written already.
unfoldable pub scrape_query : Bytes → List Bytes → Bytes
scrape_query raw_query [] = raw_query
scrape_query raw_query (ih ∷ info_hashes) =
    scrape_query
      ((if ltb 0 (length raw_query) then raw_query ++ codes "&" else raw_query)
        ++ (codes "info_hash=" ++ percent_encode_bytes ih))
      info_hashes
