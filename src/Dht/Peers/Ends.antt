-- ===== src/Dht/Peers/Ends.antt =====
-- GetPeers (dht/node.go) in a network of finitely many identifiers.
use project_based_learning.Base.{
  ℕ, zero, suc, ◌+◌, ◌<◌, ◌≡◌, refl, Bool, false, Bool-cases, Option-cases, inl, inr, Option, some,
  List, [], ◌∷◌, ◌++◌, ◌==◌, arith, length, Bytes, All, All-append,
}
use project_based_learning.Base.Distinct
use project_based_learning.Base.Distinct.{length-distinct}
use project_based_learning.Base.Wire.{bytes_eq, bytes_eq_sym}
use project_based_learning.Base.Assoc.{All-put}
use project_based_learning.Dht.Krpc.{Message}
use project_based_learning.Dht.Table.{UdpAddr, Node, insert, closest}
use project_based_learning.Dht.Table.Bucket.{IsDistinct}
use project_based_learning.Dht.Lookup.{alpha, candidates, seed, is_empty}
use project_based_learning.Dht.Lookup.Ends.{Inside, Bounded, add_nodes-Bounded, seed-Inside}
use project_based_learning.Dht.Query.{Dht, PeersReply, send_get_peers}
use project_based_learning.Dht.Peers.{
  addr_key, has_peer, add_peers, add_token, Search, add_peers_replies, ask_all, peers_round,
  peers_rounds, search_from, get_peers,
}

-- No two peers with one text.
abbrev pub AreDistinct : List UdpAddr → Type 0
AreDistinct = Distinct.IsDistinct addr_key

Lacks-has_peer :
    (p : UdpAddr) (found : List UdpAddr)
    → has_peer p found ≡ false
    → Distinct.Lacks addr_key (addr_key p) found
Lacks-has_peer p [] h = tt
Lacks-has_peer p (q ∷ found) h = (ground (arith, h), Lacks-has_peer p found (ground (arith, h)))

AreDistinct-append :
    (p : UdpAddr) (found : List UdpAddr)
    → Distinct.Lacks addr_key (addr_key p) found
    → AreDistinct found
    → AreDistinct (found ++ p ∷ [])
AreDistinct-append p [] l d = (tt, tt)
AreDistinct-append p (q ∷ found) l d = (
  All-append (λ a. bytes_eq (addr_key a) (addr_key q) ≡ false) found (p ∷ []) d.0
      (bytes_eq_sym (addr_key q) (addr_key p) l.0, tt),
  AreDistinct-append p found l.1 d.1,
)

module _ (P : UdpAddr → Type 0) (Q : Bytes × Bytes → Type 0) where
  abbrev pub AreFound : List UdpAddr → Type 0
  AreFound found = AreDistinct found × All P found

  add_peers-AreFound :
      (found peers : List UdpAddr) → AreFound found → All P peers → AreFound (add_peers found peers)
  unfolding add_peers
  add_peers-AreFound found [] v h = v
  add_peers-AreFound found (p ∷ peers) v h = elim (Bool-cases (has_peer p found)) [
    | inl known ↦ rw known (add_peers-AreFound found peers v h.1)
    | inr new ↦ rw new (
        add_peers-AreFound (found ++ p ∷ []) peers
          (
            AreDistinct-append p found (Lacks-has_peer p found new) v.0,
            All-append P found (p ∷ []) v.1 (h.0, tt),
          )
          h.1)
  ]

  add_token-All :
      (id token : Bytes) (tokens : List (Bytes × Bytes))
      → Q (id, token)
      → All Q tokens
      → All Q (add_token id token tokens)
  add_token-All id token tokens h hs = elim (Bool-cases (length token == 0)) [
    | inl empty ↦ rw empty hs
    | inr full ↦ rw full (All-put Q id token tokens h hs)
  ]

  module _ (ids : List Bytes) where
    -- What a node may answer.
    abbrev pub IsReply : Node × PeersReply → Type 0
    IsReply (n, r) = Inside ids r.nodes × All P r.peers × Q (n.id, r.token)

    -- A search that knows n nodes at least, and more if the flag is set.
    record IsSearch (n : ℕ) (state : Bool × Search) : Type 0 where
      bounded : Bounded ids n (state.0, state.1.lookup)
      found : AreFound state.1.peers
      from : All Q state.1.tokens

    add_peers_replies-IsSearch :
        (n : ℕ) (replies : List (Node × PeersReply)) (state : Bool × Search)
        → All IsReply replies
        → IsSearch n state
        → IsSearch n (add_peers_replies replies state)
    unfolding add_peers_replies
    add_peers_replies-IsSearch n [] state h v = v
    add_peers_replies-IsSearch n ((node, r) ∷ replies) (added, s) h v =
        let b = v.bounded in
        let l = record s.lookup { table = (insert node s.lookup.table).1 } in
        add_peers_replies-IsSearch n replies _ h.1 (record {
          bounded =
              add_nodes-Bounded ids n r.nodes (added, l) h.0.0
                (record {
                  inside = b.inside;
                  distinct = b.distinct;
                  grown = b.grown;
                  kept = b.kept;
                });
          found = add_peers-AreFound s.peers r.peers v.found h.0.1;
          from = add_token-All node.id r.token s.tokens h.0.2 v.from;
        })

    module _ (ask : Node → Option PeersReply)
        (arrive : List (Node × PeersReply) → List (Node × PeersReply))
        (ask_answers : (n : Node) (r : PeersReply) → ask n ≡ some r → IsReply (n, r))
        (arrive_keeps : (replies : List (Node × PeersReply))
          → All IsReply replies
          → All IsReply (arrive replies)) where
      ask_all-IsReply : (cs : List Node) → All IsReply (ask_all ask arrive cs)
      ask_all-IsReply [] = tt
      ask_all-IsReply (c ∷ cs) = elim (Option-cases (ask c)) [
        | inl e ↦ rw e (ask_all-IsReply cs)
        | inr (r, e) ↦ rw e (ask_answers c r e, ask_all-IsReply cs)
      ]

      -- A search at the start of a round.
      abbrev IsKept : Search → Type 0
      IsKept s =
          Inside ids s.lookup.shortlist
          × IsDistinct s.lookup.shortlist
          × AreFound s.peers
          × All Q s.tokens

      peers_round-IsSearch :
          (cs : List Node) (s : Search)
          → IsKept s
          → IsSearch (length s.lookup.shortlist) (peers_round ask arrive cs s)
      unfolding peers_round
      peers_round-IsSearch cs s (h, d, f, t) =
          add_peers_replies-IsSearch (length s.lookup.shortlist) _ _
            (arrive_keeps _ (ask_all-IsReply cs))
            (record {
              bounded = record { inside = h; distinct = d; grown = λ e. cc; kept = omega arith };
              found = f;
              from = t;
            })

      peers_rounds_end :
          (fuel : ℕ) (target : Bytes) (s : Search)
          → IsKept s
          → length ids < fuel + length s.lookup.shortlist
          → (t : Search) × (peers_rounds ask arrive fuel target s ≡ some t)
            × AreFound t.peers
            × All Q t.tokens
      unfolding peers_rounds
      peers_rounds_end zero target s (h, d, f, k) enough =
          absurd (omega (arith, length-distinct (λ n. n.id) s.lookup.shortlist ids d h))
      peers_rounds_end (suc fuel) target s (h, d, f, k) enough =
          let cs = candidates target s.lookup in
          let next = peers_round ask arrive cs s in
          let v = peers_round-IsSearch cs s (h, d, f, k) in
          let b = v.bounded in
          elim (Bool-cases (is_empty cs)) [
            | inl none_left ↦ (s, rw none_left, f, k)
            | inr some_left ↦ elim (Bool-cases next.0) [
              | inl added ↦
                  let (t, e, f', k') =
                    peers_rounds_end fuel target next.1 (b.inside, b.distinct, v.found, v.from)
                      (omega (arith, b.grown added)) in
                  (t, rw (some_left, added) e, f', k')
              | inr stop ↦ (next.1, rw (some_left, stop), v.found, v.from)
            ]
          ]

-- GetPeers comes to an end, after no more rounds than one for each identifier and one, if the
-- answers of nodes and the seeds keep to a finite list of identifiers, and what arrives are the
-- answers. It returns each peer once, and only peers that some answer has, and the node then has
-- only tokens that it had, or that the node of that identifier sent: P and Q stand for what is
-- known of the peers and of the tokens of the answers.
pub get_peers_ends :
    (P : UdpAddr → Type 0) (Q : Bytes × Bytes → Type 0) (ids : List Bytes)
    (send : UdpAddr → Message → Option Message)
    (arrive : List (Node × PeersReply) → List (Node × PeersReply)) (d : Dht) (info_hash : Bytes)
    → ((n : Node) (r : PeersReply)
        → send_get_peers send d n info_hash ≡ some r
        → IsReply P Q ids (n, r))
    → ((replies : List (Node × PeersReply))
        → All (IsReply P Q ids) replies
        → All (IsReply P Q ids) (arrive replies))
    → Inside ids (closest info_hash alpha d.table)
    → All Q d.tokens
    → (found : List UdpAddr) × (after : Dht) × (get_peers send arrive (suc (length ids)) d info_hash
        ≡ some (found, after))
      × AreDistinct found
      × All P found
      × All Q after.tokens
unfolding get_peers
get_peers_ends P Q ids send arrive d info_hash answers keeps h k =
    ends (closest info_hash alpha d.table) h
  where
    ends :
        (seeds : List Node)
        → Inside ids seeds
        → (found : List UdpAddr) × (after : Dht) × (search_from send arrive
              (suc (length ids))
              d
              info_hash
              seeds
            ≡ some (found, after))
          × AreDistinct found
          × All P found
          × All Q after.tokens
    ends [] h = ([], d, refl, tt, tt, k)
    ends (n ∷ seeds) h =
        let (inside, distinct) = seed-Inside ids [] (n ∷ seeds) (tt, tt) h in
        let start : Search = record {
          lookup = record { table = d.table; queried = d.id ∷ []; shortlist = seed [] (n ∷ seeds) };
          tokens = d.tokens;
          peers = [];
        } in
        let (t, e, f, q) =
          peers_rounds_end P Q ids (λ c. send_get_peers send d c info_hash) arrive answers keeps
            (suc (length ids)) info_hash start (inside, distinct, (tt, tt), k) (omega arith) in
        (t.peers, record d { table = t.lookup.table; tokens = t.tokens }, rw e, f.0, f.1, q)
