-- ===== src/Dht/Tests.antt =====
-- The properties of the DHT at concrete inputs.
use mathlib.Core.List.{Perm}
use project_based_learning.Base.{
  ◌+◌, ◌*◌, ◌^◌, ℕ, ◌≤◌, ◌≡◌, ◌⊎◌, refl, min, pos, Bool, true, Bool-cases, inl, inr, Option, none,
  some, List, [], ◌∷◌, ◌++◌, if◌then◌else◌, replicate, length, Bytes, codes, All, arith,
}
use project_based_learning.Base.Wire.{bytes_eq}
use project_based_learning.Base.Outcome.{ok}
use project_based_learning.Base.Sorting.{IsSorted, sort_by}
use project_based_learning.Bencode.Decimal.{decimal, append_int}
use project_based_learning.Bencode.Value.{int, str, end, entry, encode, encode_str}
use project_based_learning.Dht.Table.{
  Node, RoutingTable, bucket_size, xor, new_routing_table, insert, remove, bucket_index, is_near,
  concat, closest, len,
}
use project_based_learning.Dht.Table.Reach.{IsKademlia, start, inserted, removed, Reach-IsKademlia}
use project_based_learning.Dht.Table.Closest.{is_as_near, closest_lem}
use project_based_learning.Dht.Krpc.{Message, new_message, encode_message, decode_message}
use project_based_learning.Dht.Krpc.RoundTrip.{query, decode-encode_message}
use project_based_learning.Dht.Lookup.{find_node}
use project_based_learning.Dht.Lookup.Ends.{Inside, find_node_ends}
use project_based_learning.Dht.Refresh.{random_id_in_bucket}
use project_based_learning.Dht.Refresh.Placed.{bucket_index-random_id_in_bucket}
use project_based_learning.Dht.Store.{Store, put_mutable}
use project_based_learning.Dht.Store.Put.{IsAuthentic, Refused, Stored, put_mutable_cases}
use project_based_learning.Dht.Store.Reach as StoreReach
use project_based_learning.Dht.Store.Reach.{Reach-IsAuthentic}

abbrev node : ℕ → Node
node k = record {
  id = k ∷ replicate 19 0;
  addr = record {
    ip = 0 ∷ 0 ∷ 0 ∷ 0 ∷ 0 ∷ 0 ∷ 0 ∷ 0 ∷ 0 ∷ 0 ∷ 255 ∷ 255 ∷ 10 ∷ 0 ∷ 0 ∷ k ∷ [];
    port = 6881;
  };
}

abbrev own_id : Bytes
own_id = replicate 20 0

abbrev small_table : RoutingTable
small_table =
    (insert (node 3) (remove (codes "x") (insert (node 129) (new_routing_table own_id)).1)).1

Reach-IsKademlia_example : IsKademlia own_id small_table × (len small_table ≤ 1280)
Reach-IsKademlia_example =
    Reach-IsKademlia (inserted (node 3) (removed (codes "x") (inserted (node 129) start)))

abbrev three_nodes : RoutingTable
three_nodes = record {
  own = own_id;
  buckets = (node 3 ∷ node 2 ∷ []) ∷ (node 129 ∷ []) ∷ replicate 158 [];
}

closest_lem_example :
    (others : List Node) × Perm
      (closest own_id 2 three_nodes ++ others)
      (concat three_nodes.buckets)
    × IsSorted (is_as_near own_id) (closest own_id 2 three_nodes ++ others)
    × (length (closest own_id 2 three_nodes) ≡ min 2 (len three_nodes))
closest_lem_example = closest_lem own_id 2 three_nodes (ground arith) (ground arith)

abbrev ping_message : Message
ping_message = record (new_message (codes "aa") (codes "q")) {
  method = codes "ping";
  args = entry (codes "id") (str own_id) end;
  read_only = true;
}

decode-encode_message_example : decode_message (encode_message ping_message) ≡ ok ping_message
decode-encode_message_example =
    decode-encode_message
      (query (codes "aa") (codes "ping") (entry (codes "id") (str own_id) end) true (refl, tt, tt))
      (unfold encode_message encode encode_str decimal append_int in omega arith)

-- Each node of the network answers with the two others, but for one that does not answer.
abbrev others : Node → Option (List Node)
others n = if bytes_eq n.id (node 2).id then none else some (node 2 ∷ node 3 ∷ node 129 ∷ [])

abbrev network : List Bytes
network = (node 2).id ∷ (node 3).id ∷ (node 129).id ∷ []

others-Inside : (n : Node) (nodes : List Node) → others n ≡ some nodes → Inside network nodes
others-Inside n nodes e = elim (Bool-cases (bytes_eq n.id (node 2).id)) [
  | inl silent ↦
      let e' : ◌≡◌ {A = Option (List Node)} none (some nodes) = rw silent at e in absurd (cc)
  | inr answers ↦
      let e' : some (node 2 ∷ node 3 ∷ node 129 ∷ []) ≡ some nodes = rw answers at e in
      let is : node 2 ∷ node 3 ∷ node 129 ∷ [] ≡ nodes = cc in rw (← is) (refl, (refl, (refl, tt)))
]

find_node_ends_example :
    (found : List Node) × (after : RoutingTable) × (find_node others
        (λ replies. replies)
        4
        own_id
        three_nodes
        (node 1).id
      ≡ some (found, after))
    × (length found ≤ bucket_size)
    × IsSorted (is_near (node 1).id) found
find_node_ends_example =
    find_node_ends others (λ replies. replies) network others-Inside (λ replies h. h) own_id
      three_nodes (node 1).id (unfold closest sort_by xor in (refl, (refl, (refl, tt))))

-- Stand-ins for the hash function and for a scheme of signatures.
abbrev prefix : Bytes → Bytes
prefix d = d

abbrev signs : Bytes → Bytes → Bytes → Bool
signs key text sig = bytes_eq key sig

put_mutable_cases_example :
    Refused prefix signs (codes "k") (codes "s") (pos 4) (codes "k") (int (pos 1)) none 50 [] (
      put_mutable prefix signs (codes "k") (codes "s") (pos 4) (codes "k") (int (pos 1)) none 50 [])
    ⊎ Stored prefix signs (codes "k") (codes "s") (pos 4) (codes "k") (int (pos 1)) none 50 [] (
        put_mutable prefix signs
          (codes "k")
          (codes "s")
          (pos 4)
          (codes "k")
          (int (pos 1))
          none
          50
          [])
put_mutable_cases_example =
    put_mutable_cases prefix signs (codes "k") (codes "s") (pos 4) (codes "k") (int (pos 1)) none 50
      []

abbrev one_item : Store
one_item =
    (put_mutable prefix signs (codes "k") (codes "s") (pos 4) (codes "k") (int (pos 1)) none 50
      []).1

Reach-IsAuthentic_example : All (IsAuthentic prefix signs) one_item
Reach-IsAuthentic_example = Reach-IsAuthentic prefix signs (
    StoreReach.mutable (codes "k") (codes "s") (pos 4) (codes "k") (int (pos 1)) none 50
      StoreReach.start)

-- A stand-in for the checksum.
abbrev sum_of : Bytes → ℕ
sum_of [] = 0
sum_of (b ∷ d) = b * 2 ^ 20 + sum_of d

abbrev random_bytes : Bytes
random_bytes = replicate 20 171

bucket_index-random_id_in_bucket_example :
    bucket_index (xor own_id (random_id_in_bucket random_bytes own_id 37)) ≡ some 37
bucket_index-random_id_in_bucket_example =
    bucket_index-random_id_in_bucket random_bytes own_id 37 refl refl (ground arith) (ground arith)
      (omega arith)
