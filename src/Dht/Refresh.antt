-- ===== src/Dht/Refresh.antt =====
-- The refresh of buckets (dht/node.go, refreshBuckets and randomIDInBucket). The bytes of
-- `rand.Read` are an argument.
pub mod Placed
use Prim.Native.Nat.{bit_and, bit_or}
use project_based_learning.Base.{
  ℕ, suc, ◌+◌, ◌-◌, ◌/◌, ◌%◌, ◌^◌, List, [], ◌∷◌, ◌++◌, ◌==◌, if◌then◌else◌, length, drop, get_or,
  replicate, Bytes,
}
use project_based_learning.Dht.Table.{Node, RoutingTable, xor}

-- The numbers of the buckets with nodes, from the `i`th on.
unfoldable pub stale_from : ℕ → List (List Node) → List ℕ
stale_from i [] = []
stale_from i (b ∷ buckets) =
    let rest = stale_from (i + 1) buckets in if length b == 0 then rest else i ∷ rest

-- The buckets that a refresh looks up.
unfoldable pub stale : RoutingTable → List ℕ
unfolding stale_from
stale table = stale_from 0 table.buckets

-- The distance with the highest bit at the bucket's position: 20 bytes, as the argument.
unfoldable pub distance_in_bucket : ℕ → Bytes → Bytes
distance_in_bucket bucket_idx dist =
    let byte_idx = (159 - bucket_idx) / 8 in
    let bit_idx = 7 - (159 - bucket_idx) % 8 in
    replicate byte_idx 0
    ++ (bit_or (bit_and (get_or dist byte_idx 0) (2 ^ (bit_idx + 1) - 1)) (2 ^ bit_idx)
        ∷ drop (byte_idx + 1) dist)

unfoldable pub random_id_in_bucket : Bytes → Bytes → ℕ → Bytes
unfolding distance_in_bucket
random_id_in_bucket random own bucket_idx = xor own (distance_in_bucket bucket_idx (xor own random))
