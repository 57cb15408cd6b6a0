-- ===== src/Torrent/Metainfo/Sizes.antt =====
-- The pieces of a torrent cut its bytes up.
use project_based_learning.Base.{
  ℕ, zero, suc, ◌+◌, ◌-◌, ◌*◌, ◌^◌, ◌≤◌, ◌<◌, min, ◌≡◌, ap, arith, pos, pos_part, add_64-pos,
  sub_64-pos, mul_64-pos,
}
use project_based_learning.Torrent.Metainfo.{Info, total_length, piece_len}

next_multiple : (i n p : ℕ) → i < n → i * p + p ≤ n * p
next_multiple i n p h = grind arith

-- The sizes of the first pieces, together.
abbrev pub size_below : Info → ℕ → ℕ
size_below t zero = 0
size_below t (suc k) = size_below t k + pos_part (piece_len t (pos k))

module _ (t : Info) (total p n : ℕ) (size : total_length t ≡ pos total)
    (piece : t.piece_length ≡ pos p) (enough : total ≤ n * p) (needed : n * p < total + p)
    (fits : n * p < 2 ^ 63) where
  times_suc : (k : ℕ) → suc k * p ≡ k * p + p
  times_suc k = grind arith

  piece_len-inside : (i : ℕ) → i < n → piece_len t (pos i) ≡ pos (min (i * p + p) total - i * p)
  unfolding piece_len
  piece_len-inside i h =
      let le = next_multiple i n p h in
      rw (size, piece, mul_64-pos i p (omega arith), add_64-pos (i * p) p (omega arith))
        (ground (
          arith,
          sub_64-pos total (i * p) (omega arith) (omega arith),
          sub_64-pos (i * p + p) (i * p) (omega arith) (omega arith),
        ))

  sizes-below : (k : ℕ) → k ≤ n → size_below t k ≡ min (k * p) total
  sizes-below zero h = omega arith
  sizes-below (suc k) h =
      let inside = ap pos_part (piece_len-inside k (omega arith)) in
      omega
        (arith, inside, sizes-below k (omega arith), next_multiple k n p (omega arith), times_suc k)

  -- Each piece has a byte at least and the piece length at most, and together they have the size
  -- of the torrent.
  pub piece_len_bounds :
      ((i : ℕ) → i < n → (l : ℕ) × (piece_len t (pos i) ≡ pos l) × (0 < l) × (l ≤ p))
      × (size_below t n ≡ total)
  piece_len_bounds = (
    λ i h.
        let le = next_multiple i n p h in
        (min (i * p + p) total - i * p, piece_len-inside i h, omega arith, omega arith),
    omega (arith, sizes-below n (omega arith)),
  )
