-- ===== src/Magnet/Tests.antt =====
-- Metadata fetched at concrete inputs.
use project_based_learning.Base.{
  length, ◌^◌, ◌≡◌, refl, ℤ, pos, true, false, Option, none, some, List, [], ◌∷◌, take, arith,
  Bytes, codes,
}
use project_based_learning.Base.Outcome.{ok}
use project_based_learning.Base.Assoc.{get}
use project_based_learning.Base.Assemble.{block}
use project_based_learning.Bencode.Value.{encode, encode_str}
use project_based_learning.Bencode.Decimal.{append_int, decimal}
use project_based_learning.Peer.Message.{Message, new_have}
use project_based_learning.Peer.Extension.{ExtHandshake, new_ext_message}
use project_based_learning.Magnet.Metadata.{num_pieces, fetch_metadata}
use project_based_learning.Magnet.Metadata.Sound.{Yields, fetch_metadata-Yields}
use project_based_learning.Magnet.Metadata.Complete.{
  data_message, Answers, done, other, reply, fetch_metadata-Answers,
}

-- A stand-in for the hash function: the first two bytes.
abbrev prefix : Bytes → Bytes
prefix d = take 2 d

abbrev extensions : List (Bytes × ℤ)
extensions = (codes "ut_metadata", pos 3) ∷ []

abbrev info : Bytes
info = codes "d4:name1:ae"

abbrev peer : ExtHandshake
peer = record { m = extensions; metadata_size = pos 11; v = []; upload_only = false }

-- The only piece, after a keep-alive and a message of another kind.
abbrev replies : List (Option Message)
replies = none ∷ some (new_have 4) ∷ some (data_message info 2 0) ∷ []

replies-Answers : Answers info 2 (0 ∷ []) replies
unfolding num_pieces
replies-Answers = other (0 ∷ []) none _ tt (
    other (0 ∷ []) (some (new_have 4)) _ (omega arith) (reply 0 [] [] (omega arith) refl (done [])))

fetch_metadata-Answers_example :
    fetch_metadata prefix (2 ^ 40) true (some peer) (prefix info) replies ≡ ok info
unfolding num_pieces get data_message new_ext_message encode encode_str append_int decimal block
fetch_metadata-Answers_example =
    fetch_metadata-Answers prefix (2 ^ 40) peer info 2 2 (0 ∷ []) replies (omega arith)
      (omega arith) (omega arith) refl refl refl (λ i less. ground arith) replies-Answers
      (tt, (omega arith, (omega arith, tt)))

fetch_metadata-Yields_example :
    Yields
      (λ d. (length d ≡ 11) × (prefix d ≡ prefix info))
      (fetch_metadata prefix (2 ^ 40) true (some peer) (prefix info) replies)
fetch_metadata-Yields_example =
    fetch_metadata-Yields prefix (2 ^ 40) true peer (prefix info) replies
