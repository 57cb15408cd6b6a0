-- ===== src/Torrent/Merkle/Proof.antt =====
-- Proofs made of the siblings on the way to the root are accepted.
use project_based_learning.Base.{
  ℕ, zero, suc, ◌+◌, ◌-◌, ◌*◌, ◌/◌, ◌%◌, ◌^◌, ◌≤◌, ◌<◌, ◌≡◌, refl, ap, ◌∙◌, true, List, [], ◌∷◌,
  arith, ◌==◌, if◌then◌else◌, Bool-cases, inl, inr, length, get_or, Bytes,
}
use native.Mathlib.Numerals.{unary_clauses}
use project_based_learning.Base.Fallible.{ok}
use project_based_learning.Base.Wire.{bytes_eq_refl}
use project_based_learning.Torrent.Merkle.{
  hash_pair, next_layer, top, root_loop, merkle_root, climb, verify_merkle_proof,
}

-- The index of the other node of a pair.
abbrev pub sibling : ℕ → ℕ
sibling i = if i % 2 == 0 then i + 1 else i - 1

pub pow_suc : (k : ℕ) → 2 ^ suc k ≡ 2 * 2 ^ k
pow_suc k = simp unary_clauses (omega arith)

pow_positive : (k : ℕ) → 0 < 2 ^ k
pow_positive zero = omega arith
pow_positive (suc k) = omega (arith, pow_suc k, pow_positive k)

pub below_pow : (k : ℕ) → k ≤ 2 ^ k
below_pow zero = omega arith
below_pow (suc k) = omega (arith, pow_suc k, below_pow k, pow_positive k)

module _ (sha : Bytes → Bytes) where
  length-next :
      (n : ℕ) (layer : List Bytes) → length layer ≡ 2 * n → length (next_layer sha layer) ≡ n
  unfolding next_layer
  length-next zero [] h = refl
  length-next zero (a ∷ layer) h = absurd (omega arith)
  length-next (suc n) [] h = absurd (omega arith)
  length-next (suc n) (a ∷ []) h = absurd (omega arith)
  length-next (suc n) (a ∷ b ∷ layer) h = ap suc (length-next n layer (omega arith))

  -- A node of the next layer is the hash of its two children.
  next-pair :
      (layer : List Bytes) (j : ℕ)
      → 2 * j + 1 < length layer
      → get_or (next_layer sha layer) j []
        ≡ hash_pair sha (get_or layer (2 * j) []) (get_or layer (2 * j + 1) [])
  unfolding next_layer
  next-pair [] j h = absurd (omega arith)
  next-pair (a ∷ []) j h = absurd (omega arith)
  next-pair (a ∷ b ∷ layer) zero h = refl
  next-pair (a ∷ b ∷ layer) (suc j) h =
      let e : 2 * suc j ≡ suc (suc (2 * j)) = omega arith in
      let e' : suc (suc (2 * j)) + 1 ≡ suc (suc (2 * j + 1)) = omega arith in
      rw (e, e') (next-pair layer j (omega arith))

  -- The siblings on the way up from the node `i`, through `k` layers.
  abbrev pub uncles : ℕ → List Bytes → ℕ → List Bytes
  uncles zero layer i = []
  uncles (suc k) layer i = get_or layer (sibling i) [] ∷ uncles k (next_layer sha layer) (i / 2)

  -- The layer after `k` rounds.
  abbrev pub rounds : ℕ → List Bytes → List Bytes
  rounds zero layer = layer
  rounds (suc k) layer = rounds k (next_layer sha layer)

  parent :
      (layer : List Bytes) (n i : ℕ)
      → length layer ≡ 2 * n
      → i < length layer
      → (if i % 2 == 0
          then hash_pair sha (get_or layer i []) (get_or layer (sibling i) [])
          else hash_pair sha (get_or layer (sibling i) []) (get_or layer i []))
        ≡ get_or (next_layer sha layer) (i / 2) []
  parent layer n i size lt = elim (Bool-cases (i % 2 == 0)) [
    | inl even ↦
        let e : 2 * (i / 2) ≡ i = ground (arith, even) in
        rw (even, next-pair layer (i / 2) (omega (arith, e)), e)
    | inr odd ↦
        let e : 2 * (i / 2) ≡ i - 1 = ground (arith, odd) in
        let e' : i - 1 + 1 ≡ i = ground (arith, odd) in
        rw (odd, next-pair layer (i / 2) (omega (arith, e, e')), e, e')
  ]

  climb-uncles :
      (k : ℕ) (layer : List Bytes) (i : ℕ)
      → length layer ≡ 2 ^ k
      → i < length layer
      → climb sha (get_or layer i []) i (uncles k layer i) ≡ get_or (rounds k layer) 0 []
  unfolding climb
  climb-uncles zero layer i size lt = let e : i ≡ 0 = omega (arith, size) in rw e
  climb-uncles (suc k) layer i size lt =
      let n : length layer ≡ 2 * 2 ^ k = size ∙ pow_suc k in
      ap (λ c. climb sha c (i / 2) (uncles k (next_layer sha layer) (i / 2)))
        (parent layer (2 ^ k) i n lt)
      ∙ climb-uncles k (next_layer sha layer) (i / 2) (length-next (2 ^ k) layer n)
          (omega (arith, n, length-next (2 ^ k) layer n))

  one_left : (layer : List Bytes) → length layer ≡ 1 → top sha layer ≡ ok (get_or layer 0 [])
  one_left [] h = absurd (omega arith)
  one_left (a ∷ layer) h = refl

  pub root_loop-rounds :
      (k f : ℕ) (layer : List Bytes)
      → length layer ≡ 2 ^ k
      → k ≤ f
      → root_loop sha f layer ≡ ok (get_or (rounds k layer) 0 [])
  unfolding root_loop
  root_loop-rounds zero zero layer size fuel = one_left layer size
  root_loop-rounds zero (suc f) layer size fuel = rw size (one_left layer size)
  root_loop-rounds (suc k) zero layer size fuel = absurd (omega arith)
  root_loop-rounds (suc k) (suc f) layer size fuel =
      let n : length layer ≡ 2 * 2 ^ k = size ∙ pow_suc k in
      ground (
        arith,
        n,
        pow_positive k,
        root_loop-rounds k f (next_layer sha layer) (length-next (2 ^ k) layer n) (omega arith),
      )

  -- In a layer of 2 ^ k nodes, each node with the siblings on its way up, and its index, passes
  -- the check against the root that the layer has.
  pub verify_merkle_proof-uncles :
      (k : ℕ) (layer : List Bytes) (i : ℕ)
      → length layer ≡ 2 ^ k
      → i < length layer
      → (root : Bytes) × (merkle_root sha layer ≡ ok root)
        × (verify_merkle_proof sha root (get_or layer i []) i (uncles k layer i) ≡ true)
  unfolding merkle_root verify_merkle_proof
  verify_merkle_proof-uncles k layer i size lt = (
    get_or (rounds k layer) 0 [],
    root_loop-rounds k (length layer) layer size (rw size (below_pow k)),
    rw (climb-uncles k layer i size lt) (bytes_eq_refl (get_or (rounds k layer) 0 [])),
  )
