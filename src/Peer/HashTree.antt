-- ===== src/Peer/HashTree.antt =====
-- The messages of BEP 52 (peer/v2messages.go).
pub mod RoundTrip
use project_based_learning.Base.{
  ℕ, zero, suc, ◌+◌, ◌/◌, ◌%◌, not, Option, none, some, List, [], ◌∷◌, ◌++◌, ltb, ◌==◌,
  if◌then◌else◌, length, take, drop, Bytes,
}
use project_based_learning.Base.Fallible.{Fallible, ok, err, ◌>>=◌}
use project_based_learning.Base.Wire.{put_u32, get_u32}

pub record HashRequest : Type 0 where
  pub pieces_root : Bytes
  pub base_layer : ℕ
  pub index : ℕ
  pub len : ℕ
  pub proof_layers : ℕ

abbrev pub hash_request_size : ℕ
hash_request_size = 48

unfoldable pub encode_hash_request : HashRequest → Bytes
encode_hash_request r =
    r.pieces_root
    ++ (put_u32 r.base_layer ++ put_u32 r.index ++ put_u32 r.len ++ put_u32 r.proof_layers)

-- The fields, from data of 48 bytes at least.
abbrev pub read_request : Bytes → Fallible HashRequest
read_request d = do
  base_layer ← get_u32 (drop 32 d)
  index ← get_u32 (drop 36 d)
  len ← get_u32 (drop 40 d)
  proof_layers ← get_u32 (drop 44 d)
  ok (record {
    pieces_root = take 32 d;
    base_layer = base_layer;
    index = index;
    len = len;
    proof_layers = proof_layers;
  })

unfoldable pub decode_hash_request : Bytes → Fallible HashRequest
decode_hash_request d =
    let fields = read_request d in if ltb (length d) hash_request_size then err else fields

-- A Hashes message has the fields of a request and the hash data. (No data is the empty string,
-- as nil is in the source.)
pub record Hashes : Type 0 where
  pub request : HashRequest
  pub hash_data : Bytes

unfoldable pub encode_hashes : Hashes → Bytes
encode_hashes h = encode_hash_request h.request ++ h.hash_data

unfoldable pub decode_hashes : Bytes → Fallible Hashes
decode_hashes d =
    let fields = read_request d >>= λ r. ok (record { request = r; hash_data = drop 48 d }) in
    if ltb (length d) hash_request_size then err else fields

-- The loop of `ExtractHashes`: `count` slices of 32 bytes, from the slice `i` on.
unfoldable pub chunks : ℕ → Bytes → List Bytes
chunks zero d = []
chunks (suc count) d = take 32 d ∷ chunks count (drop 32 d)

unfoldable pub extract_hashes : Bytes → Option (List Bytes)
extract_hashes d = if not (length d % 32 == 0) then none else some (chunks (length d / 32) d)
