-- ===== src/Pex/Tracker/Told.antt =====
-- A peer that applies each message knows the swarm as it is.
use project_based_learning.Base.{
  ℕ, ◌≤◌, ◌≡◌, refl, ap, Bool, true, false, not, ◌&&◌, ◌||◌, List, [], ◌∷◌, arith, if◌then◌else◌,
  length, take_all, Bytes, All,
}
use project_based_learning.Base.Wire.{bytes_eq, bytes_eq→eq}
use project_based_learning.Base.Assoc.{has, All-put, All-delete}
use project_based_learning.Pex.Message.{PeerEntry, Message}
use project_based_learning.Pex.Tracker.{
  max_added, max_dropped, addr, Peers, DiffTracker, new_diff_tracker, add_peer, remove_peer,
  missing, diff,
}

-- Whether an entry with the address is in a list.
abbrev pub named : Bytes → List PeerEntry → Bool
named k [] = false
named k (e ∷ es) = bytes_eq (addr e.ip e.port) k || named k es

-- What the receiver knows of an address after a message, from what it knew before.
abbrev pub told : Bytes → Message → Bool → Bool
told k m before =
    if named k m.added || named k m.added_6
    then true
    else if named k m.dropped || named k m.dropped_6
    then false
    else before

-- Each entry stands under its address.
abbrev pub AreKeyed : Peers → Type 0
AreKeyed = All (λ (k, e). k ≡ addr e.ip e.port)

named-missing :
    (k : Bytes) (known m : Peers)
    → AreKeyed m
    → (named k (missing true known m) || named k (missing false known m))
      ≡ (has k m && not (has k known))
unfolding missing
named-missing k known [] v = refl
named-missing k known ((j, e) ∷ m) v =
    ground (arith, at_key, same_known, named-missing k known m v.1)
  where
    at_key : bytes_eq (addr e.ip e.port) k ≡ bytes_eq j k
    at_key = rw (← v.0)

    same_known : bytes_eq j k ≡ true → has j known ≡ has k known
    same_known h = ap (λ i. has i known) (bytes_eq→eq j k h)

-- A tracker whose entries stand under their addresses.
pub record IsKeyed (t : DiffTracker) : Type 0 where
  pub current_keyed : AreKeyed t.current
  pub sent_keyed : AreKeyed t.last_sent

pub data Reach : DiffTracker → Type 0 where
  start : Reach new_diff_tracker
  added : {t : DiffTracker} (e : PeerEntry) → Reach t → Reach (add_peer e t)
  removed : {t : DiffTracker} (ip : Bytes) (port : ℕ) → Reach t → Reach (remove_peer ip port t)
  sent : {t : DiffTracker} → Reach t → Reach (diff t).1

keyed : {t : DiffTracker} → Reach t → IsKeyed t
unfolding add_peer remove_peer diff
keyed start = record { current_keyed = tt; sent_keyed = tt }
keyed (added {t} e r) =
    let v = keyed r in
    record {
      current_keyed =
          All-put (λ (k, e). k ≡ addr e.ip e.port) (addr e.ip e.port) e t.current refl
            v.current_keyed;
      sent_keyed = v.sent_keyed;
    }
keyed (removed {t} ip port r) =
    let v = keyed r in
    record {
      current_keyed =
          All-delete (λ (k, e). k ≡ addr e.ip e.port) (addr ip port) t.current v.current_keyed;
      sent_keyed = v.sent_keyed;
    }
keyed (sent {t} r) =
    let v = keyed r in record { current_keyed = v.current_keyed; sent_keyed = v.current_keyed }

-- No list of the message is cut short.
pub record IsWhole (t : DiffTracker) : Type 0 where
  pub added_fit : length (missing true t.last_sent t.current) ≤ 50
  pub added_6_fit : length (missing false t.last_sent t.current) ≤ 50
  pub dropped_fit : length (missing true t.current t.last_sent) ≤ 50
  pub dropped_6_fit : length (missing false t.current t.last_sent) ≤ 50

-- For a tracker reached by any calls, with at most 50 peers of each family that are new since the
-- last message and at most 50 that are gone: a receiver that knew the addresses last sent knows
-- just the current ones once it has applied the message of `Diff`, and these are then the ones
-- last sent.
pub told-diff :
    {t : DiffTracker}
    → Reach t
    → IsWhole t
    → ((k : Bytes) → told k (diff t).0 (has k t.last_sent) ≡ has k t.current)
      × ((diff t).1 ≡ record { current = t.current; last_sent = t.current })
unfolding diff
told-diff {t} r w =
    let v = keyed r in
    (
      λ k.
          rw
            (
              take_all max_added (missing true t.last_sent t.current) w.added_fit,
              take_all max_added (missing false t.last_sent t.current) w.added_6_fit,
              take_all max_dropped (missing true t.current t.last_sent) w.dropped_fit,
              take_all max_dropped (missing false t.current t.last_sent) w.dropped_6_fit,
              named-missing k t.last_sent t.current v.current_keyed,
              named-missing k t.current t.last_sent v.sent_keyed,
            )
            (ground arith),
      refl,
    )
