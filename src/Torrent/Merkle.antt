-- ===== src/Torrent/Merkle.antt =====
-- Merkle trees (torrent/merkle.go, lines 8 to 138). SHA-256 is the parameter `sha`.
pub mod Proof
pub mod Total
use project_based_learning.Base.{
  ℕ, zero, suc, ◌+◌, ◌-◌, ◌*◌, ◌/◌, ◌%◌, Bool, List, [], ◌∷◌, ◌++◌, ltb, leb, ◌==◌, if◌then◌else◌,
  length, take, drop, replicate, Bytes,
}
use project_based_learning.Base.Fallible.{Fallible, ok, panic}
use project_based_learning.Base.Wire.{bytes_eq}

abbrev pub merkle_block_size : ℕ
merkle_block_size = 16384

-- The loop of `nextPow2`, with as many rounds as fuel.
unfoldable pub double_until : ℕ → ℕ → ℕ → ℕ
double_until zero p n = p
double_until (suc f) p n = let more = double_until f (p * 2) n in if ltb p n then more else p

unfoldable pub next_pow_2 : ℕ → ℕ
next_pow_2 n = if leb n 1 then 1 else double_until n 1 n

-- A hash of 32 zeros, as `make` leaves the padding.
abbrev pub zero_hash : Bytes
zero_hash = replicate 32 0

abbrev pub num_leaves : Bytes → ℕ
num_leaves d = (length d + merkle_block_size - 1) / merkle_block_size

module _ (sha : Bytes → Bytes) where
  unfoldable pub hash_pair : Bytes → Bytes → Bytes
  hash_pair left right = sha (left ++ right)

  -- The body of the loop of `merkleRoot`: `len(layer) / 2` pairs.
  unfoldable pub next_layer : List Bytes → List Bytes
  next_layer (a ∷ b ∷ layer) = hash_pair a b ∷ next_layer layer
  next_layer _ = []

  abbrev pub top : List Bytes → Fallible Bytes
  top [] = panic
  top (h ∷ _) = ok h

  -- `merkleRoot`: each round halves the layer, so its length is enough fuel.
  unfoldable pub root_loop : ℕ → List Bytes → Fallible Bytes
  root_loop zero layer = top layer
  root_loop (suc f) layer =
      let more = root_loop f (next_layer layer) in if ltb 1 (length layer) then more else top layer

  unfoldable pub merkle_root : List Bytes → Fallible Bytes
  merkle_root layer = root_loop (length layer) layer

  unfoldable pub merkle_root_from_leaves : List Bytes → Fallible Bytes
  merkle_root_from_leaves leaves = if length leaves == 0 then ok (sha []) else merkle_root leaves

  -- The hashes of the first `n` blocks.
  unfoldable pub block_hashes : ℕ → Bytes → List Bytes
  block_hashes zero d = []
  block_hashes (suc n) d =
      sha (take merkle_block_size d) ∷ block_hashes n (drop merkle_block_size d)

  unfoldable pub merkle_leaves : Bytes → List Bytes
  merkle_leaves d =
      if length d == 0
      then sha [] ∷ []
      else block_hashes (num_leaves d) d
        ++ replicate (next_pow_2 (num_leaves d) - num_leaves d) zero_hash

  unfoldable pub merkle_hash : Bytes → Fallible Bytes
  merkle_hash d =
      if length d == 0
      then ok (sha [])
      else merkle_root (
          block_hashes (num_leaves d) d
          ++ replicate (next_pow_2 (num_leaves d) - num_leaves d) zero_hash)

  unfoldable pub layers_loop : ℕ → List Bytes → List (List Bytes)
  layers_loop zero layer = []
  layers_loop (suc f) layer =
      let more = next_layer layer ∷ layers_loop f (next_layer layer) in
      if ltb 1 (length layer) then more else []

  unfoldable pub merkle_layers : List Bytes → List (List Bytes)
  merkle_layers leaves =
      if length leaves == 0 then [] else leaves ∷ layers_loop (length leaves) leaves

  -- The loop of `VerifyMerkleProof`: the hash that the proof leads to.
  unfoldable pub climb : Bytes → ℕ → List Bytes → Bytes
  climb current i [] = current
  climb current i (uncle ∷ proof) =
      climb (if i % 2 == 0 then hash_pair current uncle else hash_pair uncle current) (i / 2) proof

  unfoldable pub verify_merkle_proof : Bytes → Bytes → ℕ → List Bytes → Bool
  verify_merkle_proof root leaf i proof = bytes_eq (climb leaf i proof) root
