-- ===== src/Seed/Choker/Slots.antt =====
-- Who is unchoked after an evaluation.
use mathlib.Core.List.{Perm}
use project_based_learning.Base.{
  ℕ, min, ◌≡◌, Bool, not, ◌&&◌, ◌||◌, ◌==◌, List, [], ◌∷◌, ◌++◌, leb, ltb, get_or, if◌then◌else◌,
  length, Bytes, All,
}
use project_based_learning.Base.Distinct.{member, IsDistinct}
use project_based_learning.Base.Sorting.{IsSorted}
use project_based_learning.Base.Wire.{bytes_eq}
use project_based_learning.Peer.Message.{Message}
use project_based_learning.Seed.Choker.{UploadConn, Choker, addrs, Evaluated, no_conn}

abbrev pub AreDistinct : List UploadConn → Type 0
AreDistinct = IsDistinct (λ c. c.addr)

unfoldable pub unchoked : List UploadConn → List UploadConn
unchoked [] = []
unchoked (c ∷ conns) = if c.choked then unchoked conns else c ∷ unchoked conns

-- An unchoke (1) for each connection that is choked before and not after, and a choke (0) for each
-- one the other way round, in the order of the connections, where there is one to write to.
abbrev pub changes : List UploadConn → List UploadConn → List (Bytes × Message)
changes (c ∷ conns) (d ∷ after) =
    let rest = changes conns after in
    if c.choked && not d.choked && c.has_conn
    then (c.addr, record { id = 1; payload = [] }) ∷ rest
    else if not c.choked && d.choked && c.has_conn
    then (c.addr, record { id = 0; payload = [] }) ∷ rest
    else rest
changes _ _ = []

abbrev pub keep_if : (UploadConn → Bool) → List UploadConn → List UploadConn
keep_if test [] = []
keep_if test (c ∷ conns) = if test c then c ∷ keep_if test conns else keep_if test conns

-- What an evaluation of a choker comes to: the interested connections in the order of their speed
-- are the `top`, as many as there are slots, and the others; just the connections with an address
-- of the top, or with the optimistic one, are unchoked, and each change is told, and no other. The
-- optimistic address is kept, or in a rotation, if there are others, it is that of a random one.
pub record IsEvaluation (random : ℕ → ℕ) (rotate : Bool) (c : Choker) (conns : List UploadConn)
    (e : Evaluated) : Type 0 where
  pub top : List UploadConn
  pub others : List UploadConn
  pub all_ranked : Perm (top ++ others) (keep_if (λ d. d.interested) conns)
  pub by_speed : IsSorted (λ a b. leb b.upload_bytes a.upload_bytes) (top ++ others)
  pub slots_used : length top ≡ min c.upload_slots (length (keep_if (λ d. d.interested) conns))
  pub choice :
      All
        (λ d.
          d.choked
          ≡ not (
              member d.addr (addrs top)
              || (not (length e.choker.optimistic == 0) && bytes_eq e.choker.optimistic d.addr)))
        e.conns
  pub rotated : e.choker.optimistic ≡ (
      if rotate && ltb c.upload_slots (length (keep_if (λ d. d.interested) conns))
      then (get_or others (random (length others)) no_conn).addr
      else c.optimistic)
  pub told : e.messages ≡ changes conns e.conns
