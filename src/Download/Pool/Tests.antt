-- ===== src/Download/Pool/Tests.antt =====
-- Runs of the pool, and its properties at concrete inputs.
use project_based_learning.Base.{
  ℕ, ◌≤◌, ◌≡◌, ◌⊎◌, refl, pos, List, [], ◌∷◌, arith, ltb, length, take, Bytes, codes, Bool-cases,
  inl, inr,
}
use project_based_learning.Base.Wire.{bytes_eq, bytes_eq→eq}
use project_based_learning.Base.Assoc.{get, put}
use project_based_learning.Download.Pool.{
  PeerPool, slots_of, new_peer_pool, start_worker, start_all, backfill, handle_worker_exit,
  snapshots, dead, cancel_all, to_cancel, evaluate,
}
use project_based_learning.Download.Pool.Keys.{occurrences}
use project_based_learning.Download.Pool.Reach.{IsPool, Reach, start, exit, Reach-IsPool}
use project_based_learning.Download.Pool.Slots.{AreNamed, handle_worker_exit-full}

abbrev two_peers : List Bytes
two_peers = codes "a" ∷ codes "b" ∷ []

two_peers-distinct : (a : Bytes) → occurrences a two_peers ≤ 1
unfolding occurrences
two_peers-distinct a = elim (Bool-cases (bytes_eq (codes "a") a)) [
  | inl same ↦ rw (← bytes_eq→eq (codes "a") a same) (omega arith)
  | inr other ↦ rw other (ground arith)
]

-- One slot; the order of rates is that of the numbers of bytes.
abbrev one_slot : PeerPool
one_slot = start_all 0 (take (slots_of (pos 1)) two_peers) (new_peer_pool (pos 1) two_peers)

abbrev by_bytes : ℕ → ℕ → ℕ
by_bytes n t = n

started : Reach by_bytes ltb (pos 1) two_peers one_slot
started = start 0

Reach-IsPool_example : IsPool (handle_worker_exit 5 (codes "a") one_slot)
Reach-IsPool_example =
    Reach-IsPool by_bytes ltb (pos 1) two_peers (handle_worker_exit 5 (codes "a") one_slot)
      two_peers-distinct (exit 5 (codes "a") one_slot started)

one_slot-IsPool : IsPool one_slot
one_slot-IsPool = Reach-IsPool by_bytes ltb (pos 1) two_peers one_slot two_peers-distinct started

one_slot-named : AreNamed one_slot.untried
unfolding start_all start_worker new_peer_pool
one_slot-named = (omega arith, tt)

handle_worker_exit-full_example :
    let q = handle_worker_exit 5 (codes "a") one_slot in
    (q.untried ≡ []) ⊎ (one_slot.max_slots ≤ length q.active)
handle_worker_exit-full_example =
    handle_worker_exit-full 5 (codes "a") one_slot one_slot-IsPool one_slot-named (omega arith)

-- The worker has no byte past its grace period: the pool then has two workers for one slot.
one_too_many : length (evaluate by_bytes ltb 9000000000 one_slot).active ≡ 2
unfolding evaluate backfill to_cancel dead start_all start_worker put new_peer_pool cancel_all get
    snapshots
one_too_many = refl
