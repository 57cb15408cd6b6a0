-- ===== src/Dht/Peers.antt =====
-- The lookup of peers (dht/node.go, GetPeers, lines 89 to 180).
pub mod Ends
mod Tests
use project_based_learning.Base.{
  ℕ, zero, suc, ◌+◌, Bool, true, false, ◌||◌, Option, none, some, List, [], ◌∷◌, ◌++◌, ◌==◌,
  if◌then◌else◌, length, Bytes,
}
use project_based_learning.Base.Wire.{bytes_eq, put_u16}
use project_based_learning.Base.Assoc.{put}
use project_based_learning.Dht.Krpc.{Message}
use project_based_learning.Dht.Table.{UdpAddr, Node, insert, closest}
use project_based_learning.Dht.Lookup.{alpha, Lookup, candidates, mark, add_nodes, seed, is_empty}
use project_based_learning.Dht.Query.{Dht, PeersReply, send_get_peers}

-- The key of a peer in the map `seen`, which has the peers of the list.
abbrev pub addr_key : UdpAddr → Bytes
addr_key p = put_u16 p.port ++ p.ip

abbrev pub has_peer : UdpAddr → List UdpAddr → Bool
has_peer p [] = false
has_peer p (q ∷ found) = bytes_eq (addr_key q) (addr_key p) || has_peer p found

unfoldable pub add_peers : List UdpAddr → List UdpAddr → List UdpAddr
add_peers found [] = found
add_peers found (p ∷ peers) = add_peers (if has_peer p found then found else found ++ p ∷ []) peers

abbrev pub add_token : Bytes → Bytes → List (Bytes × Bytes) → List (Bytes × Bytes)
add_token id token tokens = if length token == 0 then tokens else put id token tokens

-- What the lookup keeps; `Lookup` has the table of the node.
pub record Search : Type 0 where
  pub lookup : Lookup
  pub tokens : List (Bytes × Bytes)
  pub peers : List UdpAddr

-- The loop over the replies; the flag is `added`.
unfoldable pub add_peers_replies : List (Node × PeersReply) → Bool × Search → Bool × Search
unfolding add_nodes
add_peers_replies [] state = state
add_peers_replies ((from, r) ∷ replies) (added, s) =
    let l = s.lookup in
    let next = add_nodes r.nodes (added, record l { table = (insert from l.table).1 }) in
    add_peers_replies replies (
      next.0,
      record {
        lookup = next.1;
        tokens = add_token from.id r.token s.tokens;
        peers = add_peers s.peers r.peers;
      },
    )

-- `ask` is the answer of a node, and `arrive` the order in which the answers of a round come in.
module _ (ask : Node → Option PeersReply)
    (arrive : List (Node × PeersReply) → List (Node × PeersReply)) where
  abbrev pub answer_of :
      Node → Option PeersReply → List (Node × PeersReply) → List (Node × PeersReply)
  answer_of c none replies = replies
  answer_of c (some r) replies = (c, r) ∷ replies

  abbrev pub ask_all : List Node → List (Node × PeersReply)
  ask_all [] = []
  ask_all (c ∷ cs) = answer_of c (ask c) (ask_all cs)

  unfoldable pub peers_round : List Node → Search → Bool × Search
  peers_round cs s =
      let l = s.lookup in
      add_peers_replies (arrive (ask_all cs))
        (false, record s { lookup = record l { queried = mark l.queried cs } })

  -- The loop, which ends where nothing was added, with peers or without; none is out of fuel.
  unfoldable pub peers_rounds : ℕ → Bytes → Search → Option Search
  peers_rounds zero target s = none
  peers_rounds (suc fuel) target s =
      let cs = candidates target s.lookup in
      let next = peers_round cs s in
      let more = peers_rounds fuel target next.1 in
      if is_empty cs then some s else if next.0 then more else some next.1

-- The peers, and the node with its table and tokens after the lookup.
abbrev pub peers_found : Dht → Option Search → Option (List UdpAddr × Dht)
peers_found d none = none
peers_found d (some s) = some (s.peers, record d { table = s.lookup.table; tokens = s.tokens })

module _ (send : UdpAddr → Message → Option Message)
    (arrive : List (Node × PeersReply) → List (Node × PeersReply)) where
  abbrev pub search_from : ℕ → Dht → Bytes → List Node → Option (List UdpAddr × Dht)
  search_from fuel d info_hash [] = some ([], d)
  search_from fuel d info_hash (n ∷ seeds) = peers_found d (
      peers_rounds (λ c. send_get_peers send d c info_hash) arrive fuel info_hash
        (record {
          lookup = record { table = d.table; queried = d.id ∷ []; shortlist = seed [] (n ∷ seeds) };
          tokens = d.tokens;
          peers = [];
        }))

  unfoldable pub get_peers : ℕ → Dht → Bytes → Option (List UdpAddr × Dht)
  get_peers fuel d info_hash = search_from fuel d info_hash (closest info_hash alpha d.table)
