-- ===== src/Dht/Lookup/Ends.antt =====
-- A lookup in a network of finitely many identifiers comes to an end.
use project_based_learning.Base.{
  ℕ, zero, suc, ◌+◌, ◌≤◌, ◌<◌, ◌≡◌, refl, Bool, true, Bool-cases, Option-cases, inl, inr, Option,
  some, List, [], ◌∷◌, ◌++◌, arith, length, length-append, length-take, take, Bytes, All,
  All-append,
}
use project_based_learning.Base.Distinct
use project_based_learning.Base.Distinct.{member, length-distinct}
use project_based_learning.Base.Sorting.{IsSorted}
use project_based_learning.Dht.Table.{
  Node, RoutingTable, bucket_size, is_near, has_id, insert, closest,
}
use project_based_learning.Dht.Table.Bucket.{IsDistinct, Lacks-has_id, IsDistinct-append}
use project_based_learning.Dht.Lookup.{
  alpha, sort_by_distance, Lookup, candidates, Reply, add_nodes, add_replies, seed, query_all,
  is_empty, round, rounds, look_up, find_node,
}
use project_based_learning.Dht.Lookup.Order.{take-sort_by_distance}

-- Nodes of a network that uses some identifiers.
abbrev pub Inside : List Bytes → List Node → Type 0
Inside = Distinct.Inside (λ n. n.id)

-- A lookup that knows distinct nodes of the network, at least n, and more if the flag is set.
pub record Bounded (ids : List Bytes) (n : ℕ) (state : Bool × Lookup) : Type 0 where
  pub inside : Inside ids state.1.shortlist
  pub distinct : IsDistinct state.1.shortlist
  pub grown : state.0 ≡ true → n < length state.1.shortlist
  pub kept : n ≤ length state.1.shortlist

module _ (ids : List Bytes) (n : ℕ) where
  pub add_nodes-Bounded :
      (nodes : List Node) (state : Bool × Lookup)
      → Inside ids nodes
      → Bounded ids n state
      → Bounded ids n (add_nodes nodes state)
  unfolding add_nodes
  add_nodes-Bounded [] (added, s) h b = b
  add_nodes-Bounded (m ∷ nodes) (added, s) h b = elim (Bool-cases (has_id m.id s.shortlist)) [
    | inl known ↦ rw known (add_nodes-Bounded nodes (added, s) h.1 b)
    | inr new ↦ rw new (
        add_nodes-Bounded nodes
          (true, record s { shortlist = s.shortlist ++ m ∷ []; table = (insert m s.table).1 }) h.1
          (record {
            inside =
                All-append (λ x. member x.id ids ≡ true) s.shortlist (m ∷ []) b.inside (h.0, tt);
            distinct =
                IsDistinct-append m s.shortlist (Lacks-has_id m.id s.shortlist new) b.distinct;
            grown = λ _. omega (arith, length-append s.shortlist (m ∷ []), b.kept);
            kept = omega (arith, length-append s.shortlist (m ∷ []), b.kept);
          }))
  ]

  add_replies-Bounded :
      (replies : List Reply) (state : Bool × Lookup)
      → All (λ r. Inside ids r.1) replies
      → Bounded ids n state
      → Bounded ids n (add_replies replies state)
  unfolding add_replies
  add_replies-Bounded [] (added, s) h b = b
  add_replies-Bounded ((from, nodes) ∷ replies) (added, s) h b = add_replies-Bounded replies _ h.1 (
      add_nodes-Bounded nodes (added, record s { table = (insert from s.table).1 }) h.0
        (record { inside = b.inside; distinct = b.distinct; grown = b.grown; kept = b.kept }))

pub seed-Inside :
    (ids : List Bytes) (shortlist nodes : List Node)
    → Inside ids shortlist × IsDistinct shortlist
    → Inside ids nodes
    → Inside ids (seed shortlist nodes) × IsDistinct (seed shortlist nodes)
seed-Inside ids shortlist [] v h = v
seed-Inside ids shortlist (n ∷ nodes) v h = elim (Bool-cases (has_id n.id shortlist)) [
  | inl known ↦ rw known (seed-Inside ids shortlist nodes v h.1)
  | inr new ↦ rw new (
      seed-Inside ids (shortlist ++ n ∷ []) nodes
        (
          All-append (λ x. member x.id ids ≡ true) shortlist (n ∷ []) v.0 (h.0, tt),
          IsDistinct-append n shortlist (Lacks-has_id n.id shortlist new) v.1,
        )
        h.1)
]

-- The answers name identifiers of the network, and what arrives in a round are the answers to it.
module _ (ask : Node → Option (List Node)) (arrive : List Reply → List Reply) (ids : List Bytes)
    (ask_inside : (n : Node) (nodes : List Node) → ask n ≡ some nodes → Inside ids nodes)
    (arrive_keeps : (replies : List Reply)
      → All (λ r. Inside ids r.1) replies
      → All (λ r. Inside ids r.1) (arrive replies)) where
  query_all-Inside : (cs : List Node) → All (λ r. Inside ids r.1) (query_all ask arrive cs)
  query_all-Inside [] = tt
  query_all-Inside (c ∷ cs) = elim (Option-cases (ask c)) [
    | inl e ↦ rw e (query_all-Inside cs)
    | inr (nodes, e) ↦ rw e (ask_inside c nodes e, query_all-Inside cs)
  ]

  round-Bounded :
      (cs : List Node) (s : Lookup)
      → Inside ids s.shortlist
      → IsDistinct s.shortlist
      → Bounded ids (length s.shortlist) (round ask arrive cs s)
  unfolding round
  round-Bounded cs s h d =
      add_replies-Bounded ids (length s.shortlist) _ _ (arrive_keeps _ (query_all-Inside cs))
        (record { inside = h; distinct = d; grown = λ e. cc; kept = omega arith })

  rounds_end :
      (fuel : ℕ) (target : Bytes) (s : Lookup)
      → Inside ids s.shortlist
      → IsDistinct s.shortlist
      → length ids < fuel + length s.shortlist
      → (t : Lookup) × (rounds ask arrive fuel target s ≡ some t)
  unfolding rounds
  rounds_end zero target s h d enough =
      absurd (omega (arith, length-distinct (λ n. n.id) s.shortlist ids d h))
  rounds_end (suc fuel) target s h d enough =
      let cs = candidates target s in
      let next = round ask arrive cs s in
      let b = round-Bounded cs s h d in
      elim (Bool-cases (is_empty cs)) [
        | inl none_left ↦ (s, rw none_left)
        | inr some_left ↦ elim (Bool-cases next.0) [
          | inl added ↦
              let (t, e) =
                rounds_end fuel target next.1 b.inside b.distinct (omega (arith, b.grown added)) in
              (t, rw (some_left, added) e)
          | inr stop ↦ (next.1, rw (some_left, stop))
        ]
      ]

  -- In a network with finitely many identifiers, which the answers and the table keep to, FindNode
  -- comes to an end, after no more rounds than one for each identifier and one, and returns 8
  -- nodes at most, in ascending order of their distance to the target.
  pub find_node_ends :
      (own : Bytes) (table : RoutingTable) (target : Bytes)
      → Inside ids (closest target alpha table)
      → (found : List Node) × (after : RoutingTable) × (find_node ask arrive
            (suc (length ids))
            own
            table
            target
          ≡ some (found, after))
        × (length found ≤ bucket_size)
        × IsSorted (is_near target) found
  unfolding find_node
  find_node_ends own table target h = ends own table target (closest target alpha table) h
    where
      ends :
          (own : Bytes) (table : RoutingTable) (target : Bytes) (seeds : List Node)
          → Inside ids seeds
          → (found : List Node) × (after : RoutingTable) × (look_up ask arrive
                (suc (length ids))
                own
                table
                target
                seeds
              ≡ some (found, after))
            × (length found ≤ bucket_size)
            × IsSorted (is_near target) found
      ends own table target [] h = ([], table, refl, omega arith, tt)
      ends own table target (n ∷ seeds) h =
          let start = seed [] (n ∷ seeds) in
          let (inside, distinct) = seed-Inside ids [] (n ∷ seeds) (tt, tt) h in
          let (t, e) =
            rounds_end (suc (length ids)) target
              (record { table = table; queried = own ∷ []; shortlist = start }) inside distinct
              (omega arith) in
          (
            take bucket_size (sort_by_distance target t.shortlist),
            t.table,
            rw e,
            omega (arith, length-take bucket_size (sort_by_distance target t.shortlist)),
            take-sort_by_distance target bucket_size t.shortlist,
          )
