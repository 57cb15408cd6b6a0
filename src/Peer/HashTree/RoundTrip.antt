-- ===== src/Peer/HashTree/RoundTrip.antt =====
-- What the encoders write, the decoders read; hashes are cut out of their concatenation.
use project_based_learning.Base.{
  ltb, false, ◌*◌, ◌/◌, ◌≡◌, refl, some, List, [], ◌∷◌, ◌++◌, arith, length, length-append,
  drop-add, Bytes, All, lengths, append_assoc,
}
use project_based_learning.Base.Fallible.{ok}
use project_based_learning.Base.Wire.{put_u32, take_exact, drop_exact, IsU32}
use project_based_learning.Peer.HashTree.{
  HashRequest, hash_request_size, encode_hash_request, read_request, decode_hash_request,
  encode_hashes, decode_hashes, chunks, extract_hashes,
}

-- A request as Go holds it.
pub record IsRequest (r : HashRequest) : Type 0 where
  pub root_length : length r.pieces_root ≡ 32
  pub base_layer_fits : IsU32 r.base_layer
  pub index_fits : IsU32 r.index
  pub len_fits : IsU32 r.len
  pub proof_layers_fits : IsU32 r.proof_layers

module _ (r : HashRequest) (v : IsRequest r) (rest : Bytes) where
  -- The bytes behind the root.
  abbrev numbers : Bytes
  numbers = put_u32 r.base_layer ++ put_u32 r.index ++ put_u32 r.len ++ put_u32 r.proof_layers

  read-encode : read_request (r.pieces_root ++ (numbers ++ rest)) ≡ ok r
  read-encode =
      let d = r.pieces_root ++ (numbers ++ rest) in
      rw
        (
          drop-add 32 4 d,
          drop-add 32 8 d,
          drop-add 32 12 d,
          drop_exact 32 r.pieces_root (numbers ++ rest) v.root_length,
          take_exact 32 r.pieces_root (numbers ++ rest) v.root_length,
        )
        (ground (arith, v.base_layer_fits, v.index_fits, v.len_fits, v.proof_layers_fits))

  long_enough : ltb (length (r.pieces_root ++ (numbers ++ rest))) hash_request_size ≡ false
  long_enough = ground (arith, length-append r.pieces_root (numbers ++ rest), v.root_length)

  -- A hash request is read back from its encoding, whatever follows.
  pub decode-encode_hash_request : decode_hash_request (encode_hash_request r ++ rest) ≡ ok r
  unfolding decode_hash_request encode_hash_request
  decode-encode_hash_request = rw (append_assoc, long_enough, read-encode)

  -- A hashes message is read back from its encoding, with its data whole.
  pub decode-encode_hashes :
      decode_hashes (encode_hashes (record { request = r; hash_data = rest }))
      ≡ ok (record { request = r; hash_data = rest })
  unfolding decode_hashes encode_hashes encode_hash_request
  decode-encode_hashes = rw (
    append_assoc,
    long_enough,
    read-encode,
    drop-add 32 16 (r.pieces_root ++ (numbers ++ rest)),
    drop_exact 32 r.pieces_root (numbers ++ rest) v.root_length,
  )

abbrev pub concat : List Bytes → Bytes
concat [] = []
concat (h ∷ hs) = h ++ concat hs

length-concat :
    (hs : List Bytes) → All (λ h. length h ≡ 32) hs → length (concat hs) ≡ 32 * length hs
length-concat [] v = refl
length-concat (h ∷ hs) v = omega (lengths, length-concat hs v.1, v.0)

chunks-concat :
    (hs : List Bytes) → All (λ h. length h ≡ 32) hs → chunks (length hs) (concat hs) ≡ hs
unfolding chunks
chunks-concat [] v = refl
chunks-concat (h ∷ hs) v =
    rw (take_exact 32 h (concat hs) v.0, drop_exact 32 h (concat hs) v.0, chunks-concat hs v.1)

-- Hashes of 32 bytes are cut out of their concatenation, each as it was, in order.
pub extract_hashes-concat :
    (hs : List Bytes) → All (λ h. length h ≡ 32) hs → extract_hashes (concat hs) ≡ some hs
unfolding extract_hashes
extract_hashes-concat hs v =
    let n = length-concat hs v in
    let m : length (concat hs) / 32 ≡ length hs = omega (arith, n) in
    rw (m, chunks-concat hs v) (ground (arith, n))
