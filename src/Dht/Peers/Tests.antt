-- ===== src/Dht/Peers/Tests.antt =====
-- The lookup and the announcement of peers (dht/node.go) at a concrete network.
use project_based_learning.Base.{
  ℕ, ◌<◌, ◌≡◌, ◌⊎◌, refl, pos, Option, some, false, List, [], ◌∷◌, ◌++◌, replicate, length, Bytes,
  codes, All,
}
use project_based_learning.Base.Outcome.{ok, err}
use project_based_learning.Bencode.Value.{str, list, nil, cons, end, entry}
use project_based_learning.Dht.Table.{
  UdpAddr, Node, bucket_size, closest, new_routing_table, bucket_index, insert, insert_bucket,
  index_from, xor,
}
use project_based_learning.Dht.Krpc.{Message, new_message}
use project_based_learning.Dht.Query.{
  Dht, PeersReply, peers_reply, send_get_peers, announce_peer, decode_compact_peers,
  decode_compact_peers_6,
}
use project_based_learning.Base.Sorting.{sort_by}
use project_based_learning.Bencode.Access.{lookup}
use project_based_learning.Dht.Compact.{each_chunk, decode_compact_nodes, decode_compact_nodes_6}
use project_based_learning.Dht.Query.Announce.{Announces, IsUnanswered, announce_peer_cases}
use project_based_learning.Dht.Peers.{get_peers}
use project_based_learning.Dht.Peers.Ends.{AreDistinct, IsReply, get_peers_ends}

abbrev id_of : ℕ → Bytes
id_of k = k ∷ replicate 19 0

-- All nodes give the same two nodes, the same peer twice and a token.
abbrev answer : Message
answer = record (new_message [] (codes "r")) {
  reply =
      entry (codes "nodes")
        (str (
          id_of 2
          ++ (10 ∷ 0 ∷ 0 ∷ 2 ∷ 26 ∷ 225 ∷ [])
          ++ id_of 3
          ++ (10 ∷ 0 ∷ 0 ∷ 3 ∷ 26 ∷ 225 ∷ [])))
        (entry (codes "token") (str (codes "tok")) (
          entry (codes "values")
            (list (
              cons (str (10 ∷ 0 ∷ 0 ∷ 9 ∷ 26 ∷ 225 ∷ []))
                (cons (str (10 ∷ 0 ∷ 0 ∷ 9 ∷ 26 ∷ 225 ∷ [])) nil)))
            end));
}

abbrev send : UdpAddr → Message → Option Message
send addr m = some answer

abbrev peer_dht : Dht
peer_dht = record {
  id = id_of 0;
  table =
      (insert (record { id = id_of 2; addr = record { ip = []; port = 6881 } })
        (new_routing_table (id_of 0))).1;
  read_only = false;
  tokens = [];
}

abbrev IsPort : UdpAddr → Type 0
IsPort p = p.port ≡ 6881

abbrev IsToken : Bytes × Bytes → Type 0
IsToken t = t.1 ≡ codes "tok"

abbrev known : List Bytes
known = id_of 2 ∷ id_of 3 ∷ []

answers-IsReply :
    (n : Node) (r : PeersReply)
    → send_get_peers send peer_dht n (id_of 7) ≡ some r
    → IsReply IsPort IsToken known (n, r)
unfolding send_get_peers decode_compact_nodes decode_compact_nodes_6 decode_compact_peers
    decode_compact_peers_6 each_chunk lookup
answers-IsReply n r e =
    let is : peers_reply answer.reply ≡ r = cc in
    rw (← is) ((refl, (refl, tt)), (refl, (refl, tt)), refl)

get_peers_ends_example :
    (found : List UdpAddr) × (after : Dht) × (get_peers send
        (λ replies. replies)
        3
        peer_dht
        (id_of 7)
      ≡ some (found, after))
    × AreDistinct found
    × All IsPort found
    × All IsToken after.tokens
unfolding bucket_index new_routing_table insert_bucket closest sort_by xor insert index_from
get_peers_ends_example =
    get_peers_ends IsPort IsToken known send (λ replies. replies) peer_dht (id_of 7) answers-IsReply
      (λ replies h. h) (refl, tt) tt

abbrev after_lookup : Dht
after_lookup = record peer_dht { tokens = (id_of 2, codes "tok") ∷ [] }

announce_peer_cases_example :
    let (sent, result) = announce_peer send after_lookup (id_of 7) (pos 6881) in
    let nearest = closest (id_of 7) bucket_size after_lookup.table in
    Announces send after_lookup (id_of 7) (pos 6881) nearest sent
    × (((result ≡ err)
          × (0 < length nearest)
          × All (IsUnanswered send after_lookup (id_of 7) (pos 6881)) sent)
        ⊎ ((result ≡ ok tt)
            × ((length nearest ≡ 0)
                ⊎ (¬ All (IsUnanswered send after_lookup (id_of 7) (pos 6881)) sent))))
announce_peer_cases_example = announce_peer_cases send after_lookup (id_of 7) (pos 6881)
