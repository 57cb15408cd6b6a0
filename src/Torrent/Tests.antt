-- ===== src/Torrent/Tests.antt =====
-- The properties of Merkle trees and of metainfo at concrete inputs.
use project_based_learning.Base.{
  ℕ, ◌<◌, ◌≤◌, false, refl, pos, replicate, ◌≡◌, true, [], ◌∷◌, List, take, get_or, Bytes, codes,
  arith,
}
use project_based_learning.Base.Fallible.{ok}
use project_based_learning.Base.Outcome as Result
use project_based_learning.Bencode.Value.{Entries, int, str, dict, end, entry}
use project_based_learning.Torrent.Metainfo.{Info, total_length, piece_len}
use project_based_learning.Torrent.Metainfo.Sizes.{size_below, piece_len_bounds}
use project_based_learning.Torrent.Merkle.{
  merkle_root, verify_merkle_proof, merkle_hash, merkle_root_from_leaves, merkle_leaves,
}
use project_based_learning.Torrent.Merkle.Total.{merkle_hash-leaves}
use project_based_learning.Torrent.Merkle.Proof.{uncles, verify_merkle_proof-uncles}

-- A stand-in for the hash function: the first two bytes.
abbrev prefix : Bytes → Bytes
prefix d = take 2 d

abbrev four_leaves : List Bytes
four_leaves = (1 ∷ []) ∷ (2 ∷ []) ∷ (3 ∷ []) ∷ (4 ∷ []) ∷ []

verify_merkle_proof-uncles_example :
    (root : Bytes) × (merkle_root prefix four_leaves ≡ ok root)
    × (verify_merkle_proof prefix root (get_or four_leaves 2 []) 2 (uncles prefix 2 four_leaves 2)
        ≡ true)
verify_merkle_proof-uncles_example =
    verify_merkle_proof-uncles prefix 2 four_leaves 2 (omega arith) (omega arith)

merkle_hash-leaves_example :
    (root : Bytes) × (merkle_hash prefix (codes "block") ≡ ok root)
    × (merkle_root_from_leaves prefix (merkle_leaves prefix (codes "block")) ≡ ok root)
merkle_hash-leaves_example = merkle_hash-leaves prefix (codes "block")

abbrev info_entries : Entries
info_entries = entry (codes "length") (int (pos 40000)) (
    entry (codes "name") (str (codes "a.iso")) (
      entry (codes "piece length") (int (pos 16384))
        (entry (codes "pieces") (str (replicate 60 7)) end)))

abbrev top_entries : Entries
top_entries =
    entry (codes "announce") (str (codes "udp://a")) (entry (codes "info") (dict info_entries) end)

abbrev one_file : Info
one_file = record {
  name = codes "a.iso";
  piece_length = pos 16384;
  pieces = replicate 3 (replicate 20 7);
  len = pos 40000;
  files = [];
  is_private = false;
}

piece_len_bounds_example :
    ((i : ℕ) → i < 3 → (l : ℕ) × (piece_len one_file (pos i) ≡ pos l) × (0 < l) × (l ≤ 16384))
    × (size_below one_file 3 ≡ 40000)
piece_len_bounds_example =
    piece_len_bounds one_file 40000 16384 3 (unfold total_length in refl) refl (omega arith)
      (omega arith) (omega arith)
