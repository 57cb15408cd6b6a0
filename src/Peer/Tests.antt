-- ===== src/Peer/Tests.antt =====
-- The properties of messages and handshakes at concrete inputs.
use project_based_learning.Base.{
  ℤ, pos, ◌≡◌, true, false, some, List, refl, [], ◌∷◌, ◌++◌, arith, length, replicate,
  length-replicate, ℕ, codes, Bytes,
}
use project_based_learning.Base.Fallible.{ok}
use project_based_learning.Peer.Message.{Message, write_message, read_message, new_piece}
use project_based_learning.Base.Outcome as Result
use project_based_learning.Bencode.Value.{encode, encode_str}
use project_based_learning.Bencode.Decimal.{append_int, decimal}
use project_based_learning.Peer.Extension.{
  put_ids, handshake_entries, new_ext_handshake, parse_ext_handshake,
}
use project_based_learning.Peer.Extension.RoundTrip.{parse-new_ext_handshake}
use project_based_learning.Peer.Framing.{read-write_message}
use project_based_learning.Peer.Handshake.{
  Handshake, supports_extensions, supports_fast, write_handshake, read_handshake,
}
use project_based_learning.Peer.HashTree.{HashRequest}
use project_based_learning.Peer.HashTree.RoundTrip.{IsRequest}
use project_based_learning.Peer.Holepunch.{HolepunchMessage}
use project_based_learning.Peer.Handshake.RoundTrip.{with_bits, read-write_handshake}

abbrev block : Message
block = new_piece 3 16384 (codes "data")

read-write_message_example :
    read_message (write_message (some block) ++ 9 ∷ []) ≡ ok (some block, 9 ∷ [])
read-write_message_example = read-write_message (some block) (9 ∷ []) (omega arith)

zeros : ℕ → Bytes
zeros n = replicate n 0

length-zeros : (n : ℕ) → length (zeros n) ≡ n
unfolding zeros
length-zeros n = length-replicate n 0

oversized : ℕ → Message
oversized n = record { id = 7; payload = zeros n }

abbrev request_bytes : Bytes
request_bytes = 0 ∷ 0 ∷ 0 ∷ 1 ∷ 0 ∷ 0 ∷ 64 ∷ 0 ∷ 0 ∷ 0 ∷ 64 ∷ 0 ∷ []

abbrev opening : Handshake
opening = record {
  info_hash = codes "aaaaaaaaaaaaaaaaaaaa";
  peer_id = codes "-PP0001-bbbbbbbbbbbb";
  reserved = 0 ∷ 0 ∷ 0 ∷ 0 ∷ 0 ∷ 0 ∷ 0 ∷ 1 ∷ [];
}

read-write_handshake_example :
    let back = record opening { reserved = with_bits opening.reserved } in
    (read_handshake (write_handshake opening ++ 7 ∷ []) ≡ ok (back, 7 ∷ []))
    × (supports_extensions back ≡ true)
    × (supports_fast back ≡ true)
read-write_handshake_example = read-write_handshake opening (omega arith) (7 ∷ [])

abbrev hash_request : HashRequest
hash_request = record {
  pieces_root = replicate 32 171;
  base_layer = 2;
  index = 512;
  len = 4;
  proof_layers = 7;
}

hash_request-IsRequest : IsRequest hash_request
hash_request-IsRequest = record {
  root_length = refl;
  base_layer_fits = omega arith;
  index_fits = omega arith;
  len_fits = omega arith;
  proof_layers_fits = omega arith;
}

abbrev two_hashes : List Bytes
two_hashes = replicate 32 1 ∷ replicate 32 2 ∷ []

abbrev connect : HolepunchMessage
connect = record {
  msg_type = 1;
  addr_type = 0;
  ip = 10 ∷ 0 ∷ 0 ∷ 7 ∷ [];
  port = 6881;
  err_code = 0;
}

abbrev extensions : List (Bytes × ℤ)
extensions = (codes "ut_metadata", pos 1) ∷ (codes "ut_pex", pos 2) ∷ []

parse-new_ext_handshake_example :
    parse_ext_handshake (new_ext_handshake extensions (pos 31235) (codes "PP 1.0")).payload
    ≡ Result.ok (record {
      m = extensions;
      metadata_size = pos 31235;
      v = codes "PP 1.0";
      upload_only = false;
    })
unfolding put_ids new_ext_handshake handshake_entries encode encode_str append_int decimal
parse-new_ext_handshake_example =
    parse-new_ext_handshake extensions (pos 31235) (codes "PP 1.0")
      (refl, omega arith, (refl, omega arith, tt)) (omega arith) (omega arith)
