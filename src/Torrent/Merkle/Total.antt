-- ===== src/Torrent/Merkle/Total.antt =====
-- The root of a piece of data.
use project_based_learning.Base.{
  ℕ, zero, suc, ◌+◌, ◌-◌, ◌*◌, ◌^◌, ◌≤◌, ◌<◌, ◌≡◌, ◌≢◌, refl, ap, ◌∙◌, Bool-cases, inl, inr, List,
  [], ◌++◌, arith, ltb, leb, ◌==◌, length, length-append, length-replicate, replicate, Bytes,
}
use project_based_learning.Base.Fallible.{ok}
use project_based_learning.Torrent.Merkle.{
  double_until, next_pow_2, zero_hash, block_hashes, num_leaves, merkle_leaves, merkle_root,
  root_loop, merkle_root_from_leaves, merkle_hash,
}
use project_based_learning.Torrent.Merkle.Proof.{pow_suc, below_pow, root_loop-rounds}

double_until-pow : (f j n : ℕ) → (k : ℕ) × (double_until f (2 ^ j) n ≡ 2 ^ k)
unfolding double_until
double_until-pow zero j n = (j, refl)
double_until-pow (suc f) j n = elim (Bool-cases (ltb (2 ^ j) n)) [
  | inl e ↦
      let (k, h) = double_until-pow f (suc j) n in
      let twice : 2 ^ j * 2 ≡ 2 ^ suc j = omega (arith, pow_suc j) in (k, rw (e, twice) h)
  | inr e ↦ (j, rw e)
]

double_until-reaches : (f p n : ℕ) → 0 < p → n ≤ p + f → n ≤ double_until f p n
unfolding double_until
double_until-reaches zero p n h fuel = omega arith
double_until-reaches (suc f) p n h fuel = elim (Bool-cases (ltb p n)) [
  | inl e ↦ rw e (double_until-reaches f (p * 2) n (omega arith) (omega arith))
  | inr e ↦ rw e (ground (arith, e))
]

next_pow_2-pow : (n : ℕ) → (k : ℕ) × (next_pow_2 n ≡ 2 ^ k)
unfolding next_pow_2
next_pow_2-pow n = elim (Bool-cases (leb n 1)) [
  | inl e ↦ (0, rw e refl)
  | inr e ↦ let (k, h) = double_until-pow n 0 n in (k, rw e h)
]

next_pow_2-reaches : (n : ℕ) → n ≤ next_pow_2 n
unfolding next_pow_2
next_pow_2-reaches n = ground (arith, double_until-reaches n 1 n)

module _ (sha : Bytes → Bytes) where
  length-block_hashes : (n : ℕ) (d : Bytes) → length (block_hashes sha n d) ≡ n
  unfolding block_hashes
  length-block_hashes zero d = refl
  length-block_hashes (suc n) d = ap suc (length-block_hashes n _)

  -- The leaves of a piece, padded.
  abbrev padded : Bytes → List Bytes
  padded d =
      block_hashes sha (num_leaves d) d
      ++ replicate (next_pow_2 (num_leaves d) - num_leaves d) zero_hash

  length-padded : (d : Bytes) → length (padded d) ≡ next_pow_2 (num_leaves d)
  length-padded d = omega (
    arith,
    length-append (block_hashes sha (num_leaves d) d)
        (replicate (next_pow_2 (num_leaves d) - num_leaves d) zero_hash),
    length-block_hashes (num_leaves d) d,
    length-replicate (next_pow_2 (num_leaves d) - num_leaves d) zero_hash,
    next_pow_2-reaches (num_leaves d),
  )

  merkle_root-pow :
      (k : ℕ) (layer : List Bytes)
      → length layer ≡ 2 ^ k
      → (root : Bytes) × (merkle_root sha layer ≡ ok root)
  unfolding merkle_root
  merkle_root-pow k layer size =
      (_, root_loop-rounds sha k (length layer) layer size (rw size (below_pow k)))

  -- Every piece of data has a root, and it is the root of its leaves.
  pub merkle_hash-leaves :
      (d : Bytes)
      → (root : Bytes) × (merkle_hash sha d ≡ ok root)
        × (merkle_root_from_leaves sha (merkle_leaves sha d) ≡ ok root)
  unfolding merkle_hash merkle_root_from_leaves merkle_leaves
  merkle_hash-leaves d = elim (Bool-cases (length d == 0)) [
    | inl e ↦ (sha [], rw e refl, rw e (unfold merkle_root root_loop in refl))
    | inr e ↦
        let (k, h) = next_pow_2-pow (num_leaves d) in
        let (root, r) = merkle_root-pow k (padded d) (length-padded d ∙ h) in
        let leaves : length (padded d) ≢ 0 =
          ground (arith, e, length-padded d, next_pow_2-reaches (num_leaves d)) in
        (root, rw e r, rw e (ground (arith, leaves, r)))
  ]
