-- ===== src/Dht/Lookup.antt =====
-- The iterative lookup (dht/node.go, lines 284 to 370 and 401 to 414).
pub mod Order
pub mod Ends
use project_based_learning.Base.{
  ℕ, zero, suc, Bool, true, false, not, ◌||◌, Option, none, some, List, [], ◌∷◌, ◌++◌,
  if◌then◌else◌, take, Bytes,
}
use project_based_learning.Base.Wire.{bytes_eq}
use project_based_learning.Base.Distinct.{member}
use project_based_learning.Base.Sorting.{insert_by}
use project_based_learning.Dht.Table.{
  Node, RoutingTable, bucket_size, is_closer, has_id, insert, closest,
}

abbrev pub alpha : ℕ
alpha = 3

-- The inner loop moves a node back past the nodes before it that are farther: `insert_by` on the
-- sorted part, listed from its end.
abbrev pub stops_at : Bytes → Node → Node → Bool
stops_at target n before = not (is_closer target n before)

abbrev pub sort_from : Bytes → List Node → List Node → List Node
sort_from target done [] = done
sort_from target done (n ∷ nodes) = sort_from target (insert_by (stops_at target) n done) nodes

abbrev pub reversed : List Node → List Node
reversed [] = []
reversed (n ∷ nodes) = reversed nodes ++ n ∷ []

unfoldable pub sort_by_distance : Bytes → List Node → List Node
sort_by_distance target nodes = reversed (sort_from target [] nodes)

-- The maps `queried` and `shortlist` as the lists of their keys and of their values; the order in
-- which Go walks the second does not matter, since the candidates are sorted and differ in their
-- identifiers.
pub record Lookup : Type 0 where
  pub table : RoutingTable
  pub queried : List Bytes
  pub shortlist : List Node

unfoldable pub unqueried : List Bytes → List Node → List Node
unqueried queried [] = []
unqueried queried (n ∷ nodes) =
    if member n.id queried then unqueried queried nodes else n ∷ unqueried queried nodes

abbrev pub candidates : Bytes → Lookup → List Node
candidates target s = take alpha (sort_by_distance target (unqueried s.queried s.shortlist))

abbrev pub mark : List Bytes → List Node → List Bytes
mark queried [] = queried
mark queried (c ∷ cs) = mark (c.id ∷ queried) cs

abbrev pub Reply : Type 0
Reply = Node × List Node

-- The inner loop over the nodes of a reply, and the loop over the replies; the flag is `added`.
unfoldable pub add_nodes : List Node → Bool × Lookup → Bool × Lookup
add_nodes [] (added, s) = (added, s)
add_nodes (n ∷ nodes) (added, s) = add_nodes nodes (
    if has_id n.id s.shortlist
    then (added, s)
    else (true, record s { shortlist = s.shortlist ++ n ∷ []; table = (insert n s.table).1 }))

unfoldable pub add_replies : List Reply → Bool × Lookup → Bool × Lookup
unfolding add_nodes
add_replies [] state = state
add_replies ((from, nodes) ∷ replies) (added, s) =
    add_replies replies (add_nodes nodes (added, record s { table = (insert from s.table).1 }))

-- The first of the nodes with an identifier stays in the map `shortlist` (the identifiers differ).
abbrev pub seed : List Node → List Node → List Node
seed shortlist [] = shortlist
seed shortlist (n ∷ nodes) =
    seed (if has_id n.id shortlist then shortlist else shortlist ++ n ∷ []) nodes

abbrev pub is_empty : List Node → Bool
is_empty [] = true
is_empty (c ∷ cs) = false

-- `ask` is the answer of a node to the query, which it gets once at most, with none for an error,
-- and `arrive` the order in which the answers of a round come in.
module _ (ask : Node → Option (List Node)) (arrive : List Reply → List Reply) where
  abbrev pub reply_of : Node → Option (List Node) → List Reply → List Reply
  reply_of c none replies = replies
  reply_of c (some nodes) replies = (c, nodes) ∷ replies

  abbrev pub query_all : List Node → List Reply
  query_all [] = []
  query_all (c ∷ cs) = reply_of c (ask c) (query_all cs)

  unfoldable pub round : List Node → Lookup → Bool × Lookup
  round cs s = add_replies (arrive (query_all cs)) (false, record s { queried = mark s.queried cs })

  -- The loop; none is out of fuel.
  unfoldable pub rounds : ℕ → Bytes → Lookup → Option Lookup
  rounds zero target s = none
  rounds (suc fuel) target s =
      let cs = candidates target s in
      let next = round cs s in
      let more = rounds fuel target next.1 in
      if is_empty cs then some s else if next.0 then more else some next.1

  abbrev pub nearest : Bytes → Option Lookup → Option (List Node × RoutingTable)
  nearest target none = none
  nearest target (some s) = some (take bucket_size (sort_by_distance target s.shortlist), s.table)

  abbrev pub look_up :
      ℕ → Bytes → RoutingTable → Bytes → List Node → Option (List Node × RoutingTable)
  look_up fuel own table target [] = some ([], table)
  look_up fuel own table target (n ∷ seeds) = nearest target (
      rounds fuel target
        (record { table = table; queried = own ∷ []; shortlist = seed [] (n ∷ seeds) }))

  -- The nodes found, and the routing table after the lookup.
  unfoldable pub find_node : ℕ → Bytes → RoutingTable → Bytes → Option (List Node × RoutingTable)
  find_node fuel own table target = look_up fuel own table target (closest target alpha table)
