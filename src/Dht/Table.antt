-- ===== src/Dht/Table.antt =====
-- The Kademlia routing table (dht/table.go).
pub mod Bucket
pub mod Reach
pub mod Xor
pub mod Closest
use Prim.Native.Nat.{bit_xor}
use project_based_learning.Base.{
  ℕ, ◌+◌, ◌-◌, ◌*◌, ℤ, pos, negsuc, ltb_ℤ, Bool, true, false, not, ◌||◌, Option, none, some, List,
  [], ◌∷◌, ◌++◌, ltb, leb, ◌==◌, if◌then◌else◌, length, take, get_or, set, replicate, Bytes,
}
use project_based_learning.Base.Wire.{bytes_eq}
use project_based_learning.Base.Sorting.{sort_by}

abbrev pub bucket_size : ℕ
bucket_size = 8

-- `net.UDPAddr`; the zone is not used.
pub record UdpAddr : Type 0 where
  pub ip : Bytes
  pub port : ℕ

-- The identifier has 20 bytes.
pub record Node : Type 0 where
  pub id : Bytes
  pub addr : UdpAddr

unfoldable pub xor : Bytes → Bytes → Bytes
xor (a ∷ s) (b ∷ t) = bit_xor a b ∷ xor s t
xor _ _ = []

-- `bits.LeadingZeros8` of a byte that is not 0.
abbrev pub leading_zeros_8 : ℕ → ℕ
leading_zeros_8 b =
    if leb 128 b
    then 0
    else if leb 64 b
    then 1
    else if leb 32 b
    then 2
    else if leb 16 b
    then 3
    else if leb 8 b
    then 4
    else if leb 4 b
    then 5
    else if leb 2 b
    then 6
    else 7

-- The loop of `BucketIndex` from the byte `i` on; none is -1.
unfoldable pub index_from : ℕ → Bytes → Option ℕ
index_from i [] = none
index_from i (b ∷ distance) =
    if b == 0 then index_from (i + 1) distance else some (159 - (i * 8 + leading_zeros_8 b))

unfoldable pub bucket_index : Bytes → Option ℕ
unfolding index_from
bucket_index distance = index_from 0 distance

pub record RoutingTable : Type 0 where
  pub own : Bytes
  pub buckets : List (List Node)

unfoldable pub new_routing_table : Bytes → RoutingTable
new_routing_table own = record { own = own; buckets = replicate 160 [] }

unfoldable pub has_id : Bytes → List Node → Bool
has_id id [] = false
has_id id (e ∷ bucket) = bytes_eq e.id id || has_id id bucket

-- The first node with the identifier is cut out.
unfoldable pub drop_id : Bytes → List Node → List Node
drop_id id [] = []
drop_id id (e ∷ bucket) = if bytes_eq e.id id then bucket else e ∷ drop_id id bucket

-- What `Insert` makes of the bucket, none if it is full.
unfoldable pub insert_bucket : Node → List Node → Option (List Node)
unfolding has_id drop_id
insert_bucket n bucket =
    if has_id n.id bucket
    then some (drop_id n.id bucket ++ n ∷ [])
    else if leb bucket_size (length bucket)
    then none
    else some (bucket ++ n ∷ [])

abbrev pub store : RoutingTable → ℕ → Option (List Node) → Bool × RoutingTable
store rt i none = (false, rt)
store rt i (some bucket) = (true, record rt { buckets = set rt.buckets i bucket })

abbrev pub insert_at : Node → RoutingTable → Option ℕ → Bool × RoutingTable
insert_at n rt none = (false, rt)
insert_at n rt (some i) = store rt i (insert_bucket n (get_or rt.buckets i []))

unfoldable pub insert : Node → RoutingTable → Bool × RoutingTable
insert n rt = insert_at n rt (bucket_index (xor rt.own n.id))

abbrev pub remove_at : Bytes → RoutingTable → Option ℕ → RoutingTable
remove_at id rt none = rt
remove_at id rt (some i) = record rt {
  buckets = set rt.buckets i (drop_id id (get_or rt.buckets i []));
}

unfoldable pub remove : Bytes → RoutingTable → RoutingTable
remove id rt = remove_at id rt (bucket_index (xor rt.own id))

-- -1, 0 or 1. Both distances have 20 bytes; where one is shorter, which does not occur, it counts
-- as the smaller.
abbrev pub compare_dist : Bytes → Bytes → ℤ
compare_dist [] [] = pos 0
compare_dist [] (b ∷ t) = negsuc 0
compare_dist (a ∷ s) [] = pos 1
compare_dist (a ∷ s) (b ∷ t) =
    if ltb a b then negsuc 0 else if ltb b a then pos 1 else compare_dist s t

abbrev pub is_closer : Bytes → Node → Node → Bool
is_closer target m n = ltb_ℤ (compare_dist (xor m.id target) (xor n.id target)) (pos 0)

-- Not farther than.
abbrev pub is_near : Bytes → Node → Node → Bool
is_near target m n = not (is_closer target n m)

abbrev pub concat : List (List Node) → List Node
concat [] = []
concat (bucket ∷ buckets) = bucket ++ concat buckets

unfoldable pub closest : Bytes → ℕ → RoutingTable → List Node
closest target n rt = take n (sort_by (is_near target) (concat rt.buckets))

abbrev pub sum_lengths : List (List Node) → ℕ
sum_lengths [] = 0
sum_lengths (bucket ∷ buckets) = length bucket + sum_lengths buckets

unfoldable pub len : RoutingTable → ℕ
len rt = sum_lengths rt.buckets
