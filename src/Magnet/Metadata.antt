-- ===== src/Magnet/Metadata.antt =====
-- The exchange of metadata, BEP 9 (magnet/metadata.go). The messages that the connection delivers
-- before its end are a list; `sent` is whether the writes go out. `memory` is the longest slice
-- that `make` can give, at most 2^62; past it `make` panics.
pub mod Complete
pub mod Sound
use project_based_learning.Base.{
  ℕ, zero, suc, ◌+◌, ◌-◌, ◌*◌, ◌/◌, ◌%◌, ◌^◌, ℤ, pos, pos_part, ltb_ℤ, eq_ℤ, Bool, true, false, not,
  ◌||◌, Option, none, some, List, [], ◌∷◌, ltb, leb, ◌==◌, if◌then◌else◌, length, drop, get_or, set,
  replicate, Bytes, codes,
}
use project_based_learning.Base.Outcome.{Outcome, ok, err, panic, out_of_fuel, ◌>>=◌, or_err}
use project_based_learning.Base.Wire.{bytes_eq}
use project_based_learning.Base.Assemble.{block_size, copy_at}
use project_based_learning.Base.Assoc.{get}
use project_based_learning.Bencode.Value.{int, dict, end, entry, encode}
use project_based_learning.Bencode.Decode.{decode_first}
use project_based_learning.Bencode.Access.{as_dict, int_at, from_bencode}
use project_based_learning.Peer.Message.{Message}
use project_based_learning.Peer.Extension.{msg_extended, ExtHandshake, new_ext_message}

-- `metadataPieceSize` is the size of a block.
abbrev pub metadata_request : ℤ
metadata_request = pos 0

abbrev pub metadata_data : ℤ
metadata_data = pos 1

abbrev pub metadata_reject : ℤ
metadata_reject = pos 2

pub record Reply : Type 0 where
  pub piece : ℤ
  pub d : Bytes
  pub msg_type : ℤ

unfoldable pub parse_metadata_response : Bytes → Outcome Reply
parse_metadata_response payload = do
  (val, n) ← from_bencode (decode_first payload)
  es ← or_err (as_dict val)
  msg_type ← or_err (int_at (codes "msg_type") es)
  piece ← or_err (int_at (codes "piece") es)
  ok (record { piece = piece; d = drop n payload; msg_type = msg_type })

-- The identifier is converted to a byte.
unfoldable pub piece_request : ℕ → ℕ → Message
piece_request id i = new_ext_message (id % 256) (
    encode (
      dict (
        entry (codes "msg_type") (int metadata_request) (entry (codes "piece") (int (pos i)) end))))

-- What is sent, from the `i`th piece on.
unfoldable pub piece_requests : ℕ → ℕ → ℕ → List Message
piece_requests id i zero = []
piece_requests id i (suc n) = piece_request id i ∷ piece_requests id (i + 1) n

-- The loop's variables.
pub record Fetch : Type 0 where
  pub pending : ℕ
  pub metadata : Bytes
  pub received : List Bool

unfoldable pub num_pieces : ℕ → ℕ
num_pieces size = (size + block_size - 1) / block_size

abbrev pub expected_len : ℕ → ℕ → ℕ
expected_len size i = if i + 1 == num_pieces size then size - i * block_size else block_size

-- A piece of data in range, with its number.
abbrev pub receive_piece : ℕ → ℕ → Bytes → Fetch → Outcome Fetch
receive_piece size i d f =
    if get_or f.received i false
    then ok f
    else if not (length d == expected_len size i)
    then err
    else ok (record {
      pending = f.pending - 1;
      metadata = copy_at (i * block_size) d f.metadata;
      received = set f.received i true;
    })

abbrev pub receive_reply : ℕ → Reply → Fetch → Outcome Fetch
receive_reply size r f =
    if eq_ℤ r.msg_type metadata_reject
    then err
    else if not (eq_ℤ r.msg_type metadata_data)
    then ok f
    else if ltb_ℤ r.piece (pos 0) || not (ltb_ℤ r.piece (pos (num_pieces size)))
    then ok f
    else receive_piece size (pos_part r.piece) r.d f

-- A payload that is no metadata message is skipped.
abbrev pub after_parse : ℕ → Outcome Reply → Fetch → Outcome Fetch
after_parse size (ok r) f = receive_reply size r f
after_parse size err f = ok f
after_parse size panic f = panic
after_parse size out_of_fuel f = out_of_fuel

unfoldable pub on_metadata : ℕ → Message → Fetch → Outcome Fetch
on_metadata size m f =
    if not (m.id == msg_extended) || ltb (length m.payload) 2
    then ok f
    else after_parse size (parse_metadata_response (drop 1 m.payload)) f

-- The loop, over the messages that are left; where none are the read fails.
unfoldable pub read_replies : ℕ → Fetch → List (Option Message) → Outcome Bytes
read_replies size f [] = if f.pending == 0 then ok f.metadata else err
read_replies size f (none ∷ ms) =
    let rest = read_replies size f ms in if f.pending == 0 then ok f.metadata else rest
read_replies size f (some m ∷ ms) =
    let rest = on_metadata size m f >>= λ next. read_replies size next ms in
    if f.pending == 0 then ok f.metadata else rest

abbrev pub new_fetch : ℕ → Fetch
new_fetch size = record {
  pending = num_pieces size;
  metadata = replicate size 0;
  received = replicate (num_pieces size) false;
}

module _ (sha : Bytes → Bytes) (memory : ℕ) where
  -- With a size that is positive.
  abbrev pub fetch_sized : Bool → ℕ → Bytes → List (Option Message) → Outcome Bytes
  fetch_sized sent size info_hash ms =
      let fetched = read_replies size (new_fetch size) ms >>= λ metadata.
      if bytes_eq (sha metadata) info_hash then ok metadata else err in
      if ltb memory size then panic else if not sent then err else fetched

  abbrev pub fetch_from :
      Bool → ExtHandshake → Option ℤ → Bytes → List (Option Message) → Outcome Bytes
  fetch_from sent ext none info_hash ms = err
  fetch_from sent ext (some id) info_hash ms =
      if eq_ℤ id (pos 0)
      then err
      else if not (ltb_ℤ (pos 0) ext.metadata_size)
      then err
      else fetch_sized sent (pos_part ext.metadata_size) info_hash ms

  -- What the peer said in its extension handshake is none before it.
  unfoldable pub fetch_metadata :
      Bool → Option ExtHandshake → Bytes → List (Option Message) → Outcome Bytes
  fetch_metadata sent none info_hash ms = err
  fetch_metadata sent (some ext) info_hash ms =
      fetch_from sent ext (get (codes "ut_metadata") ext.m) info_hash ms
