-- ===== src/Dht/Refresh/Placed.antt =====
-- randomIDInBucket (dht/node.go): the bucket of a random identifier.
use Prim.Native.Nat.{bit_and, bit_or}
use project_based_learning.Base.{
  ℕ, zero, suc, ◌+◌, ◌-◌, ◌*◌, ◌/◌, ◌%◌, ◌^◌, ◌<◌, ◌≡◌, refl, ◌∙◌, Bool, true, false, ◌&&◌, not,
  some, List, [], ◌∷◌, ◌++◌, ltb, ◌==◌, arith, lengths, length, length-drop, length-replicate,
  get_or, drop, replicate, Bytes, IsByte, All, All-get_or, All-append,
}
use project_based_learning.Base.Table.{every_below, every_below_sound}
use project_based_learning.Dht.Table.{xor, leading_zeros_8, index_from, bucket_index}
use project_based_learning.Dht.Table.Xor.{xor-IsByte, length-xor, xor-xor}
use project_based_learning.Dht.Refresh.{distance_in_bucket, random_id_in_bucket}

-- The marked byte has its highest bit at `k`.
abbrev marked : ℕ → ℕ → ℕ
marked x k = bit_or (bit_and x (2 ^ (k + 1) - 1)) (2 ^ k)

abbrev marked_test : ℕ → ℕ → Bool
marked_test x k =
    not (marked x k == 0) && (ltb (marked x k) 256 && leading_zeros_8 (marked x k) + k == 7)

marked_table : every_below (λ t. marked_test (t / 8) (t % 8)) 2048 ≡ true
unfolding every_below
marked_table = refl

-- What the table says of a byte.
abbrev IsMarked : ℕ → ℕ → Type 0
IsMarked k m = ((m == 0) ≡ false) × IsByte m × (leading_zeros_8 m + k ≡ 7)

read_test :
    (m k z : ℕ)
    → (not (m == 0) && (ltb m 256 && z + k == 7)) ≡ true
    → ((m == 0) ≡ false) × IsByte m × (z + k ≡ 7)
read_test m k z e = (ground arith, ground arith, ground arith)

marked_at : (x k : ℕ) → IsByte x → k < 8 → IsMarked k (marked x k)
marked_at x k hx hk =
    let t = x * 8 + k in
    let ex : t / 8 ≡ x = omega arith in
    let ek : t % 8 ≡ k = omega arith in
    read_test (marked x k) k (leading_zeros_8 (marked x k)) (
      rw (ex, ek) at
        (every_below_sound (λ t'. marked_test (t' / 8) (t' % 8)) 2048 t marked_table (omega arith)))

index_from-replicate :
    (i n : ℕ) (d : Bytes) → index_from i (replicate n 0 ++ d) ≡ index_from (i + n) d
unfolding index_from
index_from-replicate i zero d = let e : i + 0 ≡ i = omega arith in rw e refl
index_from-replicate i (suc n) d =
    let e : i + suc n ≡ i + 1 + n = omega arith in rw e (index_from-replicate (i + 1) n d)

replicate-IsByte : (n : ℕ) → All IsByte (replicate n 0)
replicate-IsByte zero = tt
replicate-IsByte (suc n) = (omega arith, replicate-IsByte n)

drop-IsByte : (n : ℕ) (d : Bytes) → All IsByte d → All IsByte (drop n d)
drop-IsByte zero d h = h
drop-IsByte (suc n) [] h = tt
drop-IsByte (suc n) (a ∷ d) h = drop-IsByte n d h.1

module _ (idx : ℕ) (dist : Bytes) (inside : idx < 160) (size : length dist ≡ 20)
    (bytes : All IsByte dist) where
  abbrev bit_idx : ℕ
  bit_idx = 7 - (159 - idx) % 8

  abbrev byte_idx : ℕ
  byte_idx = (159 - idx) / 8

  is_marked : IsMarked bit_idx (marked (get_or dist byte_idx 0) bit_idx)
  is_marked =
      marked_at (get_or dist byte_idx 0) bit_idx
        (All-get_or IsByte dist byte_idx 0 bytes (omega arith)) (omega arith)

  distance_in_bucket-IsByte : All IsByte (distance_in_bucket idx dist)
  unfolding distance_in_bucket
  distance_in_bucket-IsByte =
      All-append IsByte (replicate byte_idx 0) _ (replicate-IsByte byte_idx)
        (is_marked.1, drop-IsByte (byte_idx + 1) dist bytes)

  length-distance_in_bucket : length (distance_in_bucket idx dist) ≡ 20
  unfolding distance_in_bucket
  length-distance_in_bucket =
      let m = marked (get_or dist byte_idx 0) bit_idx in
      let back = drop (byte_idx + 1) dist in
      let front : List ℕ = replicate byte_idx 0 in
      let zeros : length front ≡ byte_idx = length-replicate byte_idx 0 in
      let rest : length back ≡ length dist - (byte_idx + 1) = length-drop (byte_idx + 1) dist in
      let whole : length (front ++ (m ∷ back)) ≡ length front + (1 + length back) = omega lengths in
      whole ∙ omega arith

  bucket_index-distance_in_bucket : bucket_index (distance_in_bucket idx dist) ≡ some idx
  unfolding distance_in_bucket bucket_index index_from
  bucket_index-distance_in_bucket =
      let m = marked (get_or dist byte_idx 0) bit_idx in
      let place : 159 - ((0 + byte_idx) * 8 + leading_zeros_8 m) ≡ idx = omega (arith, is_marked) in
      index_from-replicate 0 byte_idx (m ∷ drop (byte_idx + 1) dist) ∙ rw (is_marked.0, place) refl

-- The identifier that a refresh makes for a bucket, from any 20 random bytes, lies in that bucket
-- of a node with an identifier of 20 bytes.
pub bucket_index-random_id_in_bucket :
    (random own : Bytes) (idx : ℕ)
    → length random ≡ 20
    → length own ≡ 20
    → All IsByte random
    → All IsByte own
    → idx < 160
    → bucket_index (xor own (random_id_in_bucket random own idx)) ≡ some idx
unfolding random_id_in_bucket
bucket_index-random_id_in_bucket random own idx hr ho br bo inside =
    let dist = xor own random in
    let size = length-xor own random (omega arith) in
    let bytes = xor-IsByte own random bo br in
    let far = length-distance_in_bucket idx dist inside (omega arith) bytes in
    rw
      (xor-xor own (distance_in_bucket idx dist) (omega arith) bo
        (distance_in_bucket-IsByte idx dist inside (omega arith) bytes))
      (bucket_index-distance_in_bucket idx dist inside (omega arith) bytes)
