-- ===== src/Dht/Query.antt =====
-- The queries of a node (dht/node.go, lines 28 to 80, 182 to 282, 371 to 399, 541 to 551 and 607 to
-- 689). `send` stands for the exchange of `Transport.Send`: the answer to a query, none for an error.
pub mod Announce
use project_based_learning.Base.{
  ℕ, zero, suc, ◌+◌, ℤ, pos, Option, none, some, List, [], ◌∷◌, ◌++◌, Bool, true, false, not, ◌&&◌,
  ltb, ◌==◌, if◌then◌else◌, length, take, drop, Bytes, codes,
}
use project_based_learning.Base.Wire.{bytes_eq}
use project_based_learning.Base.Outcome.{Outcome, ok, err}
use project_based_learning.Base.Assoc.{get}
use project_based_learning.Net.{v4_prefix}
use project_based_learning.Bencode.Value.{Items, Entries, str, int, nil, cons, end, entry}
use project_based_learning.Bencode.Access.{str_at, int_at, list_at}
use project_based_learning.Dht.Krpc.{Message, new_message, or_empty, or_nil}
use project_based_learning.Dht.Table.{UdpAddr, Node, RoutingTable, bucket_size, insert, closest}
use project_based_learning.Dht.Compact.{
  each_chunk, u16_of, decode_compact_nodes, decode_compact_nodes_6, decode_samples,
}

-- A peer is the address with the port, of which the code keeps the text: an address of IPv4 has the
-- same text in both forms, so 16 bytes stand for it.
abbrev pub peer_of : Bytes → UdpAddr
peer_of d = record { ip = v4_prefix ++ take 4 d; port = u16_of (drop 4 d) }

unfoldable pub decode_compact_peers : Bytes → List UdpAddr
decode_compact_peers d = each_chunk 6 peer_of (length d) d

abbrev pub peer_6_of : Bytes → UdpAddr
peer_6_of d = record { ip = take 16 d; port = u16_of (drop 16 d) }

unfoldable pub decode_compact_peers_6 : Bytes → List UdpAddr
decode_compact_peers_6 d = each_chunk 18 peer_6_of (length d) d

-- `DHT`, whose `Transport` is `send`; the tokens by the identifier of their node.
pub record Dht : Type 0 where
  pub id : Bytes
  pub table : RoutingTable
  pub read_only : Bool
  pub tokens : List (Bytes × Bytes)

abbrev pub new_query : Dht → Bytes → Entries → Message
new_query d method args = record (new_message [] (codes "q")) {
  method = method;
  args = args;
  read_only = d.read_only;
}

abbrev pub nodes_in : Entries → List Node
nodes_in reply =
    decode_compact_nodes (or_empty (str_at (codes "nodes") reply))
    ++ decode_compact_nodes_6 (or_empty (str_at (codes "nodes6") reply))

-- The peers of a list of values; a value that is no string has none.
abbrev pub peers_from : (Bytes → List UdpAddr) → Items → List UdpAddr
peers_from decode nil = []
peers_from decode (cons (str s) xs) = decode s ++ peers_from decode xs
peers_from decode (cons v xs) = peers_from decode xs

pub record PeersReply : Type 0 where
  pub nodes : List Node
  pub peers : List UdpAddr
  pub token : Bytes

abbrev pub peers_reply : Entries → PeersReply
peers_reply reply = record {
  nodes = nodes_in reply;
  peers =
      peers_from decode_compact_peers (or_nil (list_at (codes "values") reply))
      ++ peers_from decode_compact_peers_6 (or_nil (list_at (codes "values6") reply));
  token = or_empty (str_at (codes "token") reply);
}

abbrev pub or_zero : Option ℤ → ℤ
or_zero none = pos 0
or_zero (some n) = n

pub record SampleInfohashesResult : Type 0 where
  pub samples : List Bytes
  pub num : ℤ
  pub interval : ℤ
  pub nodes : List Node

abbrev pub samples_reply : Entries → SampleInfohashesResult
samples_reply reply = record {
  samples = decode_samples (or_empty (str_at (codes "samples") reply));
  num = or_zero (int_at (codes "num") reply);
  interval = or_zero (int_at (codes "interval") reply);
  nodes = nodes_in reply;
}

-- The reply of a message, none for an error message too.
abbrev pub reply_in : Option Message → Option Entries
reply_in none = none
reply_in (some m) = if bytes_eq m.type (codes "e") then none else some m.reply

abbrev pub read_reply {ℓ} : {A : Type ℓ} → (Entries → A) → Option Entries → Option A
read_reply f none = none
read_reply f (some reply) = some (f reply)

-- A node that the reply names with 20 bytes goes into the table.
abbrev pub pinged : Dht → UdpAddr → Option Bytes → Option Bytes × Dht
pinged d addr none = (none, d)
pinged d addr (some id) =
    if length id == 20
    then (some id, record d { table = (insert (record { id = id; addr = addr }) d.table).1 })
    else (none, d)

abbrev pub id_in : Option Entries → Option Bytes
id_in none = none
id_in (some reply) = str_at (codes "id") reply

abbrev pub if_any : Option (List Node) → Option (List Node)
if_any (some (n ∷ nodes)) = some (n ∷ nodes)
if_any _ = none

abbrev pub get_peers_query : Dht → Bytes → Message
get_peers_query d info_hash =
    new_query d (codes "get_peers")
      (entry (codes "id") (str d.id) (entry (codes "info_hash") (str info_hash) end))

abbrev pub announcement : Dht → Bytes → ℤ → Bytes → Message
announcement d info_hash port token = new_query d (codes "announce_peer") (
    entry (codes "id") (str d.id) (
      entry (codes "info_hash") (str info_hash)
        (entry (codes "port") (int port) (entry (codes "token") (str token) end))))

abbrev pub one_if_any : Option Message → ℕ
one_if_any none = 0
one_if_any (some m) = 1

module _ (send : UdpAddr → Message → Option Message) where
  unfoldable pub ping : Dht → UdpAddr → Option Bytes × Dht
  ping d addr = pinged d addr (
      id_in (reply_in (send addr (new_query d (codes "ping") (entry (codes "id") (str d.id) end)))))

  unfoldable pub send_find_node : Dht → Node → Bytes → Option (List Node)
  send_find_node d n target = if_any (
      read_reply nodes_in (
        reply_in (
          send n.addr (
            new_query d (codes "find_node")
              (entry (codes "id") (str d.id) (entry (codes "target") (str target) end))))))

  unfoldable pub send_get_peers : Dht → Node → Bytes → Option PeersReply
  send_get_peers d n info_hash =
      read_reply peers_reply (reply_in (send n.addr (get_peers_query d info_hash)))

  unfoldable pub sample_infohashes : Dht → UdpAddr → Bytes → Option SampleInfohashesResult
  sample_infohashes d addr target = read_reply samples_reply (
      reply_in (
        send addr (
          new_query d (codes "sample_infohashes")
            (entry (codes "id") (str d.id) (entry (codes "target") (str target) end)))))

  -- The queries that the loop sends, with their addresses, and `announced`.
  abbrev pub announce_one :
      Dht
      → Bytes
      → ℤ
      → Node
      → Option Bytes
      → List (UdpAddr × Message) × ℕ
      → List (UdpAddr × Message) × ℕ
  announce_one d info_hash port n none rest = rest
  announce_one d info_hash port n (some token) (sent, announced) =
      let m = announcement d info_hash port token in
      ((n.addr, m) ∷ sent, one_if_any (send n.addr m) + announced)

  unfoldable pub announce_to : Dht → Bytes → ℤ → List Node → List (UdpAddr × Message) × ℕ
  announce_to d info_hash port [] = ([], 0)
  announce_to d info_hash port (n ∷ nodes) =
      announce_one d info_hash port n (get n.id d.tokens) (announce_to d info_hash port nodes)

  unfoldable pub announce_peer : Dht → Bytes → ℤ → List (UdpAddr × Message) × Outcome {0} Unit
  unfolding announce_to
  announce_peer d info_hash port =
      let nearest = closest info_hash bucket_size d.table in
      let (sent, announced) = announce_to d info_hash port nearest in
      (sent, if announced == 0 && ltb 0 (length nearest) then err else ok tt)
