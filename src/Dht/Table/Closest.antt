-- ===== src/Dht/Table/Closest.antt =====
-- The nodes that `Closest` returns.
use mathlib.Core.List.{Perm}
use project_based_learning.Base.{
  ℕ, suc, Bool-cases, inl, inr, ltb, leb, ◌*◌, ◌+◌, ◌^◌, ◌<◌, ◌≤◌, IsByte, All, min, ◌≡◌, refl, pos,
  ltb_ℤ, Bool, true, false, not, List, [], ◌∷◌, ◌++◌, arith, length, length-append, length-take,
  take, drop, take-append-drop, Bytes,
}
use project_based_learning.Base.Sorting.{
  sort_by, IsSorted, sort_by-All, sort_by-perm, sort_by-IsSorted, length-perm,
}
use native.Mathlib.Nat.{mul-le-mul_right, suc-mul, pow-succ'}
use project_based_learning.Dht.Table.Xor.{xor-IsByte, length-xor}
use project_based_learning.Dht.Table.{
  Node, xor, compare_dist, is_near, concat, RoutingTable, closest, sum_lengths, len,
}

-- Not greater than.
abbrev le_dist : Bytes → Bytes → Bool
le_dist s t = not (ltb_ℤ (compare_dist t s) (pos 0))

le_dist_total : (s t : Bytes) → le_dist s t ≡ false → le_dist t s ≡ true
le_dist_total [] [] h = refl
le_dist_total [] (b ∷ t) h = cc
le_dist_total (a ∷ s) [] h = refl
le_dist_total (a ∷ s) (b ∷ t) h = ground (arith, le_dist_total s t)

le_dist_trans : (s t u : Bytes) → le_dist s t ≡ true → le_dist t u ≡ true → le_dist s u ≡ true
le_dist_trans [] t [] h k = refl
le_dist_trans [] t (c ∷ u) h k = refl
le_dist_trans (a ∷ s) [] u h k = cc
le_dist_trans (a ∷ s) (b ∷ t) [] h k = cc
le_dist_trans (a ∷ s) (b ∷ t) (c ∷ u) h k = ground (arith, le_dist_trans s t u)

-- What the order of distances gives for nodes.
pub is_near_total :
    (target : Bytes) (m n : Node) → is_near target m n ≡ false → is_near target n m ≡ true
is_near_total target m n = le_dist_total (xor m.id target) (xor n.id target)

pub is_near_trans :
    (target : Bytes) (m n o : Node)
    → is_near target m n ≡ true
    → is_near target n o ≡ true
    → is_near target m o ≡ true
is_near_trans target m n o = le_dist_trans (xor m.id target) (xor n.id target) (xor o.id target)

length-concat : (buckets : List (List Node)) → length (concat buckets) ≡ sum_lengths buckets
length-concat [] = refl
length-concat (b ∷ buckets) = omega (arith, length-append b (concat buckets), length-concat buckets)

-- A byte string as the number that its bytes write, the highest first.
abbrev pub number : Bytes → ℕ
number [] = 0
number (b ∷ s) = b * 256 ^ length s + number s

-- The Kademlia distance of a node to the target: the bitwise exclusive or, read as a number.
abbrev pub distance_to : Bytes → Node → ℕ
distance_to target n = number (xor n.id target)

-- A first byte that is smaller decides.
digits_lt : (a b m r : ℕ) → a < b → r < m → a * m + r < b * m
digits_lt a b m r h k =
    let grown : suc a * m ≤ b * m = mul-le-mul_right m h in
    let parts = suc-mul a m in omega (arith, grown, parts, k)

number_bound : (s : Bytes) → All IsByte s → number s < 256 ^ length s
number_bound [] h = omega arith
number_bound (b ∷ s) (hb, hs) =
    let low = digits_lt b 256 (256 ^ length s) (number s) hb (number_bound s hs) in
    let step : 256 ^ suc (length s) ≡ 256 * 256 ^ length s = pow-succ' 256 (length s) in rw step low

le_dist-number :
    (s t : Bytes)
    → length s ≡ length t
    → All IsByte s
    → All IsByte t
    → le_dist s t ≡ true
    → number s ≤ number t
le_dist-number [] [] e hs ht h = omega arith
le_dist-number [] (b ∷ t) e hs ht h = absurd (omega arith)
le_dist-number (a ∷ s) [] e hs ht h = absurd (omega arith)
le_dist-number (a ∷ s) (b ∷ t) e hs ht h = elim (Bool-cases (ltb a b)) [
  | inl less ↦
      let same : length s ≡ length t = omega arith in
      let first =
        digits_lt a b (256 ^ length t) (number s) (ground (arith, less))
          (rw same at (number_bound s hs.1)) in
      rw same (omega (arith, first))
  | inr not_less ↦ elim (Bool-cases (ltb b a)) [
    | inl more ↦ absurd (ground (arith, h, more, not_less))
    | inr not_more ↦
        let same : length s ≡ length t = omega arith in
        let equal : a ≡ b = ground (arith, not_less, not_more) in
        let rest = le_dist-number s t same hs.1 ht.1 (ground (arith, h, not_less, not_more)) in
        rw (same, equal) (omega (arith, rest))
  ]
]

-- An identifier has 20 bytes.
abbrev pub IsId : Bytes → Type 0
IsId id = (length id ≡ 20) × All IsByte id

-- Not farther from the target, by the number.
abbrev pub is_as_near : Bytes → Node → Node → Bool
is_as_near target m n = leb (distance_to target m) (distance_to target n)

module _ (target : Bytes) (ht : IsId target) where
  is_near-number :
      (m n : Node)
      → IsId m.id
      → IsId n.id
      → is_near target m n ≡ true
      → is_as_near target m n ≡ true
  is_near-number m n hm hn h =
      let sm = length-xor m.id target (omega (arith, hm.0, ht.0)) in
      let sn = length-xor n.id target (omega (arith, hn.0, ht.0)) in
      let le =
        le_dist-number (xor m.id target) (xor n.id target) (omega (arith, sm, sn))
          (xor-IsByte m.id target hm.1 ht.1) (xor-IsByte n.id target hn.1 ht.1) h in
      ground (arith, le)

  All-number :
      (m : Node) (nodes : List Node)
      → IsId m.id
      → All (λ n. IsId n.id) nodes
      → All (λ n. is_near target m n ≡ true) nodes
      → All (λ n. is_as_near target m n ≡ true) nodes
  All-number m [] hm hs h = tt
  All-number m (n ∷ nodes) hm hs h =
      (is_near-number m n hm hs.0 h.0, All-number m nodes hm hs.1 h.1)

  IsSorted-number :
      (nodes : List Node)
      → All (λ n. IsId n.id) nodes
      → IsSorted (is_near target) nodes
      → IsSorted (is_as_near target) nodes
  IsSorted-number [] hs h = tt
  IsSorted-number (n ∷ nodes) hs h =
      (All-number n nodes hs.0 hs.1 h.0, IsSorted-number nodes hs.1 h.1)

-- For identifiers of 20 bytes, `Closest` returns n nodes, or all if there are fewer. With some list
-- of other nodes behind them they are all nodes of the table, in ascending order of the exclusive
-- or of their identifier and the target, as a number: so they are in order, and no node left out is
-- closer than one of them.
pub closest_lem :
    (target : Bytes) (n : ℕ) (rt : RoutingTable)
    → IsId target
    → All (λ m. IsId m.id) (concat rt.buckets)
    → (others : List Node) × Perm (closest target n rt ++ others) (concat rt.buckets)
      × IsSorted (is_as_near target) (closest target n rt ++ others)
      × (length (closest target n rt) ≡ min n (len rt))
unfolding closest len
closest_lem target n rt ht hs =
    let all = sort_by (is_near target) (concat rt.buckets) in
    let whole : take n all ++ drop n all ≡ all = take-append-drop n all in
    let ids = sort_by-All (is_near target) (λ m. IsId m.id) (concat rt.buckets) hs in
    let sorted =
      sort_by-IsSorted (is_near target) (is_near_total target) (is_near_trans target)
        (concat rt.buckets) in
    (
      drop n all,
      rw whole (sort_by-perm (is_near target) (concat rt.buckets)),
      rw whole (IsSorted-number target ht all ids sorted),
      omega (
        arith,
        length-take n all,
        length-perm (sort_by-perm (is_near target) (concat rt.buckets)),
        length-concat rt.buckets,
      ),
    )
