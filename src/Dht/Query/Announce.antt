-- ===== src/Dht/Query/Announce.antt =====
-- AnnouncePeer (dht/node.go): its queries and its result.
use project_based_learning.Base.{
  ◌<◌, ◌≡◌, ◌⊎◌, refl, ℤ, Bool-cases, Option-cases, inl, inr, Option, none, some, List, [], ◌∷◌,
  ◌==◌, ltb, arith, length, Bytes, All, codes,
}
use project_based_learning.Base.Outcome.{ok, err}
use project_based_learning.Base.Assoc.{get}
use project_based_learning.Bencode.Access.{lookup, str_at, int_at}
use project_based_learning.Dht.Krpc.{Message}
use project_based_learning.Dht.Table.{UdpAddr, Node, bucket_size, closest}
use project_based_learning.Dht.Query.{Dht, announcement, one_if_any, announce_to, announce_peer}

one_if_any_cases :
    (a : Option Message) → ((one_if_any a ≡ 0) × (a ≡ none)) ⊎ ((one_if_any a ≡ 1) × (¬ (a ≡ none)))
one_if_any_cases none = inl (refl, refl)
one_if_any_cases (some m) = inr (refl, λ e. cc)

module _ (send : UdpAddr → Message → Option Message) (d : Dht) (info_hash : Bytes) (port : ℤ) where
  -- An announce_peer query with the node's identifier, the hash, the port and the token.
  pub record IsAnnouncement (token : Bytes) (m : Message) : Type 0 where
    pub is_query : m.type ≡ codes "q"
    pub method : m.method ≡ codes "announce_peer"
    pub sender : str_at (codes "id") m.args ≡ some d.id
    pub about : str_at (codes "info_hash") m.args ≡ some info_hash
    pub at_port : int_at (codes "port") m.args ≡ some port
    pub with_token : str_at (codes "token") m.args ≡ some token
    pub marked : m.read_only ≡ d.read_only

  -- What is sent for some nodes: a query with its token, at its address, to each one for which a
  -- token is kept, and nothing else.
  pub data Announces : List Node → List (UdpAddr × Message) → Type 0 where
    none_left : Announces [] []
    skipped :
        {nodes : List Node} {sent : List (UdpAddr × Message)} (n : Node)
        → get n.id d.tokens ≡ none
        → Announces nodes sent
        → Announces (n ∷ nodes) sent
    told :
        {nodes : List Node} {sent : List (UdpAddr × Message)} (n : Node) (token : Bytes)
        (m : Message)
        → get n.id d.tokens ≡ some token
        → IsAnnouncement token m
        → Announces nodes sent
        → Announces (n ∷ nodes) ((n.addr, m) ∷ sent)

  announcement_lem : (token : Bytes) → IsAnnouncement token (announcement d info_hash port token)
  unfolding lookup
  announcement_lem token = record {
    is_query = refl;
    method = refl;
    sender = refl;
    about = refl;
    at_port = refl;
    with_token = refl;
    marked = refl;
  }

  abbrev pub IsUnanswered : UdpAddr × Message → Type 0
  IsUnanswered (addr, m) = send addr m ≡ none

  announce_to_lem :
      (nodes : List Node)
      → let (sent, announced) = announce_to send d info_hash port nodes in
        Announces nodes sent
        × (announced ≡ 0 → All IsUnanswered sent)
        × (0 < announced → ¬ All IsUnanswered sent)
  unfolding announce_to
  announce_to_lem [] = (none_left, λ e. tt, λ h. absurd (omega (arith, h)))
  announce_to_lem (n ∷ nodes) =
      let (rest, silent, answered) = announce_to_lem nodes in
      elim (Option-cases (get n.id d.tokens)) [
        | inl no_token ↦ rw no_token (skipped n no_token rest, silent, answered)
        | inr (token, e) ↦
            let m = announcement d info_hash port token in
            elim (one_if_any_cases (send n.addr m)) [
              | inl (zeroed, silence) ↦ rw e (
                told n token m e (announcement_lem token) rest,
                (λ z. (silence, silent (omega (arith, z, zeroed)))),
                (λ h all. answered (omega (arith, h, zeroed)) all.1),
              )
              | inr (counted, answer) ↦ rw e (
                told n token m e (announcement_lem token) rest,
                (λ z. absurd (omega (arith, z, counted))),
                (λ h all. answer all.0),
              )
            ]
      ]

  -- AnnouncePeer queries each of the nearest nodes for which a token is kept, at its address and
  -- with its own token, the hash and the port, and nobody else. It fails if
  -- there are nodes near, but no query was answered; it succeeds if there are none, or some query
  -- was answered, be it with an error message.
  pub announce_peer_cases :
      let (sent, result) = announce_peer send d info_hash port in
      let nearest = closest info_hash 8 d.table in
      Announces nearest sent
      × (((result ≡ err) × (0 < length nearest) × All IsUnanswered sent)
          ⊎ ((result ≡ ok tt) × ((length nearest ≡ 0) ⊎ (¬ All IsUnanswered sent))))
  unfolding announce_peer
  announce_peer_cases =
      let nearest = closest info_hash bucket_size d.table in
      let (sent, silent, answered) = announce_to_lem nearest in
      let announced = (announce_to send d info_hash port nearest).1 in
      elim (Bool-cases (announced == 0)) [
        | inl no_answer ↦ elim (Bool-cases (ltb 0 (length nearest))) [
          | inl near ↦
              rw (no_answer, near)
                (sent, inl (refl, ground (arith, near), silent (ground (arith, no_answer))))
          | inr nobody ↦ rw (no_answer, nobody) (sent, inr (refl, inl (ground (arith, nobody))))
        ]
        | inr some_answer ↦
            rw some_answer (sent, inr (refl, inr (answered (ground (arith, some_answer)))))
      ]
