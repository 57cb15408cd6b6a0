-- ===== src/Seed/Choker.antt =====
-- The choking algorithm (seed/choke.go). A tick of the loop of `Run` is a call of `evaluate`.
pub mod Slots
use project_based_learning.Base.{
  ℕ, zero, suc, ◌+◌, ◌%◌, ℤ, pos, pos_part, ltb_ℤ, min, Bool, true, false, not, ◌&&◌, List, [], ◌∷◌,
  ◌++◌, map, ltb, leb, ◌==◌, if◌then◌else◌, length, take, drop, get_or, Bytes,
}
use project_based_learning.Base.Distinct.{member}
use project_based_learning.Base.Sorting.{sort_by}
use project_based_learning.Peer.Message.{Message, new_choke, new_unchoke}

-- `has_conn` is whether the connection is not nil.
pub record UploadConn : Type 0 where
  pub addr : Bytes
  pub interested : Bool
  pub choked : Bool
  pub upload_bytes : ℕ
  pub has_conn : Bool

pub record Choker : Type 0 where
  pub upload_slots : ℕ
  pub optimistic : Bytes

unfoldable pub new_choker : ℤ → Choker
new_choker n = record { upload_slots = if ltb_ℤ (pos 0) n then pos_part n else 4; optimistic = [] }

unfoldable pub interested_in : List UploadConn → List UploadConn
interested_in [] = []
interested_in (c ∷ conns) = if c.interested then c ∷ interested_in conns else interested_in conns

-- At least as fast. `sort.Slice` leaves the order of equally fast ones open; here they keep it.
abbrev pub is_faster : UploadConn → UploadConn → Bool
is_faster c d = leb d.upload_bytes c.upload_bytes

abbrev pub no_conn : UploadConn
no_conn = record {
  addr = [];
  interested = false;
  choked = true;
  upload_bytes = 0;
  has_conn = false;
}

-- `rand.Intn` of the number of candidates is `random` of it.
abbrev pub pick_optimistic : (ℕ → ℕ) → Bool → List UploadConn → Choker → Bytes
pick_optimistic random rotate ranked c =
    let rest = drop c.upload_slots ranked in
    if rotate && ltb c.upload_slots (length ranked)
    then (get_or rest (random (length rest)) no_conn).addr
    else c.optimistic

abbrev pub addrs : List UploadConn → List Bytes
addrs [] = []
addrs (c ∷ conns) = c.addr ∷ addrs conns

-- The set of addresses to unchoke: the first ones, and the optimistic one if there is one.
abbrev pub unchoke_set : List UploadConn → Bytes → List Bytes
unchoke_set top optimistic = if length optimistic == 0 then addrs top else optimistic ∷ addrs top

-- What is sent to a connection, if anything.
abbrev pub sent : UploadConn → Message → List (Bytes × Message)
sent c m = if c.has_conn then (c.addr, m) ∷ [] else []

-- The decision for one connection; the messages in the order in which they are written.
abbrev pub decide : List Bytes → UploadConn → UploadConn × List (Bytes × Message)
decide set c =
    let should_unchoke = member c.addr set in
    if should_unchoke && c.choked
    then (record c { choked = false }, sent c new_unchoke)
    else if not should_unchoke && not c.choked
    then (record c { choked = true }, sent c new_choke)
    else (c, [])

unfoldable pub apply : List Bytes → List UploadConn → List UploadConn × List (Bytes × Message)
apply set [] = ([], [])
apply set (c ∷ conns) =
    let one = decide set c in let rest = apply set conns in (one.0 ∷ rest.0, one.1 ++ rest.1)

pub record Evaluated : Type 0 where
  pub choker : Choker
  pub conns : List UploadConn
  pub messages : List (Bytes × Message)

unfoldable pub evaluate : (ℕ → ℕ) → Choker → List UploadConn → Bool → Evaluated
evaluate random c conns rotate =
    let ranked = sort_by is_faster (interested_in conns) in
    let optimistic = pick_optimistic random rotate ranked c in
    let done = apply (unchoke_set (take c.upload_slots ranked) optimistic) conns in
    record { choker = record c { optimistic = optimistic }; conns = done.0; messages = done.1 }
