-- ===== src/Dht/Table/Reach.antt =====
-- Any sequence of insertions and removals from a new table.
use project_based_learning.Base.{
  ℕ, suc, ◌+◌, ◌*◌, ◌≤◌, ◌<◌, ◌≡◌, refl, sym, ◌∙◌, Bool-cases, Option-cases, inl, inr, Option, none,
  some, List, [], ◌∷◌, arith, ◌==◌, ==_iff, length, length-set, length-replicate, get_or,
  get_or-set, get_or-replicate, set, Bytes,
}
use mathlib.Core.Path.{subst}
use project_based_learning.Dht.Table.{
  bucket_size, Node, xor, index_from, bucket_index, RoutingTable, new_routing_table, drop_id,
  insert_bucket, store, insert, remove, sum_lengths, len,
}
use project_based_learning.Dht.Table.Bucket.{
  IsBucket, IfSome, drop_id-IsBucket, insert_bucket-IsBucket,
}

-- The buckets of a node with the identifier `own`.
pub record IsKademlia (own : Bytes) (rt : RoutingTable) : Type 0 where
  pub own_kept : rt.own ≡ own
  pub size : length rt.buckets ≡ 160
  pub bucket : (i : ℕ) → IsBucket own i (get_or rt.buckets i [])

pub data Reach (own : Bytes) : RoutingTable → Type 0 where
  start : Reach own (new_routing_table own)
  inserted : {rt : RoutingTable} (n : Node) → Reach own rt → Reach own (insert n rt).1
  removed : {rt : RoutingTable} (id : Bytes) → Reach own rt → Reach own (remove id rt)

empty-IsBucket : (own : Bytes) (i : ℕ) → IsBucket own i []
empty-IsBucket own i = record { small = omega arith; placed = tt; distinct = tt }

new-IsKademlia : (own : Bytes) → IsKademlia own (new_routing_table own)
unfolding new_routing_table
new-IsKademlia own = record {
  own_kept = refl;
  size = length-replicate {A = List Node} 160 [];
  bucket = λ i. subst (IsBucket own i) (sym (get_or-replicate 160 i [])) (empty-IsBucket own i);
}

index_from-lt : (i : ℕ) (distance : Bytes) → IfSome (λ k. k < 160) (index_from i distance)
unfolding index_from
index_from-lt i [] = tt
index_from-lt i (b ∷ distance) = elim (Bool-cases (b == 0)) [
  | inl e ↦ rw e (index_from-lt (i + 1) distance)
  | inr e ↦ rw e (omega arith)
]

bucket_index-lt : (distance : Bytes) (k : ℕ) → bucket_index distance ≡ some k → k < 160
unfolding bucket_index
bucket_index-lt distance k e = subst (IfSome (λ j. j < 160)) e (index_from-lt 0 distance)

module _ (own : Bytes) (rt : RoutingTable) (v : IsKademlia own rt) where
  -- A valid bucket is written at its index.
  set-IsKademlia :
      (i : ℕ) (bucket : List Node)
      → i < 160
      → IsBucket own i bucket
      → IsKademlia own (record rt { buckets = set rt.buckets i bucket })
  set-IsKademlia i bucket lt w = record {
    own_kept = v.own_kept;
    size = length-set rt.buckets i bucket ∙ v.size;
    bucket = λ j.
        let at_j = get_or-set rt.buckets i j bucket [] (omega (arith, v.size)) in
        elim (Bool-cases (i == j)) [
          | inl same ↦ rw (at_j, same) (subst (λ k. IsBucket own k bucket) ((==_iff i j).0 same) w)
          | inr other ↦ rw (at_j, other) (v.bucket j)
        ];
  }

  store-IsKademlia :
      (i : ℕ) (made : Option (List Node))
      → i < 160
      → IfSome (IsBucket own i) made
      → IsKademlia own (store rt i made).1
  store-IsKademlia i none lt w = v
  store-IsKademlia i (some bucket) lt w = set-IsKademlia i bucket lt w

  insert-IsKademlia : (n : Node) → IsKademlia own (insert n rt).1
  unfolding insert
  insert-IsKademlia n = elim (Option-cases (bucket_index (xor rt.own n.id))) [
    | inl e ↦ rw e v
    | inr (i, e) ↦
        let here : bucket_index (xor own n.id) ≡ some i = rw v.own_kept at e in
        rw e (
          store-IsKademlia i (insert_bucket n (get_or rt.buckets i [])) (bucket_index-lt _ i e)
            (insert_bucket-IsBucket own i (get_or rt.buckets i []) (v.bucket i) n here))
  ]

  remove-IsKademlia : (id : Bytes) → IsKademlia own (remove id rt)
  unfolding remove
  remove-IsKademlia id = elim (Option-cases (bucket_index (xor rt.own id))) [
    | inl e ↦ rw e v
    | inr (i, e) ↦ rw e (
        set-IsKademlia i (drop_id id (get_or rt.buckets i [])) (bucket_index-lt _ i e)
          (drop_id-IsBucket own i (get_or rt.buckets i []) (v.bucket i) id))
  ]

sum_lengths-le :
    (own : Bytes) (buckets : List (List Node))
    → ((i : ℕ) → length (get_or buckets i []) ≤ bucket_size)
    → sum_lengths buckets ≤ bucket_size * length buckets
sum_lengths-le own [] h = omega arith
sum_lengths-le own (b ∷ buckets) h = omega (arith, h 0, sum_lengths-le own buckets (λ i. h (suc i)))

reached : {own : Bytes} {rt : RoutingTable} → Reach own rt → IsKademlia own rt
reached {own} start = new-IsKademlia own
reached {own} (inserted {rt} n r) = insert-IsKademlia own rt (reached r) n
reached {own} (removed {rt} id r) = remove-IsKademlia own rt (reached r) id

-- After any sequence of insertions and removals from a new table each of the 160 buckets has 8
-- nodes at most, no two with one identifier, each of them in the bucket of its distance; so the
-- table has 1280 nodes at most.
pub Reach-IsKademlia :
    {own : Bytes} {rt : RoutingTable} → Reach own rt → IsKademlia own rt × (len rt ≤ 1280)
unfolding len
Reach-IsKademlia {own} {rt} r =
    let v = reached r in
    (v, omega (arith, v.size, sum_lengths-le own rt.buckets (λ i. (v.bucket i).small)))
