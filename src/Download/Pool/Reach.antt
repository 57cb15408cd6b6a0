-- ===== src/Download/Pool/Reach.antt =====
-- Runs of the pool.
use project_based_learning.Base.{
  ℕ, zero, suc, ◌+◌, ◌-◌, ◌≤◌, ◌<◌, ◌≡◌, refl, ℤ, Bool, Option, none, some, List, [], ◌∷◌, ◌++◌,
  ltb, ◌==◌, arith, length, take, take-append-drop, Bytes, Bool-cases, inl, inr,
}
use project_based_learning.Base.Wire.{bytes_eq, bytes_eq_refl, bytes_eq→eq}
use project_based_learning.Base.Assoc.{get, put, delete, get-put, get-delete}
use project_based_learning.Download.Pool.{
  ActiveWorker, PeerPool, new_peer_pool, slots_of, start_worker, start_all, with_untried, backfill,
  strike_count, strikes_of, recycle, handle_worker_exit, reset_strikes, add_bytes, block_received,
  snapshots, cancel_one, cancel_all, to_cancel, evaluate,
}
use project_based_learning.Download.Pool.Keys.{
  keys, occurrences, occurrences-append, occurrences-lacking, occurrences-has, get-has,
  keys-put_new, keys-put_known, occurrences-delete, keys-snapshots,
}

-- An address is untried at most once, or has at most one worker, and not both; what is untried has
-- fewer than three strikes.
abbrev pub IsOnce : List Bytes → PeerPool → Type 0
IsOnce untried p =
    ((a : Bytes) → occurrences a untried + occurrences a (keys p.active) ≤ 1)
    × ((a : Bytes) → 1 ≤ occurrences a untried → strikes_of a p < 3)

unfoldable pub IsPool : PeerPool → Type 0
IsPool p = IsOnce p.untried p

-- A peer that is neither untried nor running gets a worker.
pub start_worker-IsOnce :
    (now : ℕ) (addr : Bytes) (untried : List Bytes) (p : PeerPool)
    → IsOnce (addr ∷ untried) p
    → IsOnce untried (start_worker now addr p)
unfolding start_worker occurrences
start_worker-IsOnce now addr untried p (once, struck) =
    let self = bytes_eq_refl addr in
    let here = rw self at (once addr) in
    let new = occurrences-lacking addr p.active (omega arith) in
    (
      λ a.
          rw (keys-put_new addr _ p.active new, occurrences-append a (keys p.active) (addr ∷ []))
            (omega (arith, once a)),
      λ a h. struck a (omega arith),
    )

-- What is tried next is untried no more.
with_untried-IsPool :
    (p : PeerPool) (untried : List Bytes) (next : Bytes → PeerPool → PeerPool)
    → IsOnce untried p
    → IsPool p
    → ((addr : Bytes) (rest : PeerPool)
        → IsOnce (addr ∷ rest.untried) rest
        → IsPool (next addr rest))
    → IsPool (with_untried p untried next)
with_untried-IsPool p [] next once h step = h
with_untried-IsPool p (addr ∷ untried) next once h step = elim (Bool-cases (length addr == 0)) [
  | inl empty ↦ rw empty (
      unfold IsPool occurrences in
      ((λ a. let o = once.0 a in omega arith), (λ a one. once.1 a (omega arith))))
  | inr named ↦ rw named (step addr (record p { untried = untried }) once)
]

pub backfill-IsPool : (now n : ℕ) (p : PeerPool) → IsPool p → IsPool (backfill now n p)
unfolding backfill
backfill-IsPool now zero p h = h
backfill-IsPool now (suc n) p h =
    let once : IsOnce p.untried p = unfold IsPool in h in
    with_untried-IsPool p p.untried _ once h (λ addr rest o.
      backfill-IsPool now n (start_worker now addr rest)
        (unfold IsPool start_worker in start_worker-IsOnce now addr rest.untried rest o))

-- A worker exits.
module _ (addr : Bytes) (p : PeerPool) (h : IsOnce p.untried p) where
  exited : PeerPool
  exited = record p { active = delete addr p.active }

  exited_once :
      (a : Bytes) → occurrences a p.untried + occurrences a (keys (delete addr p.active)) ≤ 1
  exited_once a =
      let o = h.0 a in
      let d = occurrences-delete a addr p.active in
      elim (Bool-cases (bytes_eq addr a)) [
        | inl here ↦ let d' = rw here at d in omega arith
        | inr there ↦ let d' = rw there at d in omega arith
      ]

  struck_once :
      (w : ActiveWorker)
      → get addr p.active ≡ some w
      → (a : Bytes)
      → occurrences a (p.untried ++ addr ∷ []) + occurrences a (keys (delete addr p.active)) ≤ 1
  unfolding occurrences
  struck_once w e a =
      let o = h.0 a in
      let runs = occurrences-has addr p.active (get-has addr p.active w e) in
      let d = occurrences-delete a addr p.active in
      let more = occurrences-append a p.untried (addr ∷ []) in
      elim (Bool-cases (bytes_eq addr a)) [
        | inl here ↦
            let d' = rw here at d in
            let more' = rw here at more in
            let runs' = rw (bytes_eq→eq addr a here) at runs in omega arith
        | inr there ↦ let d' = rw there at d in let more' = rw there at more in omega arith
      ]

  not_untried : (w : ActiveWorker) → get addr p.active ≡ some w → occurrences addr p.untried ≡ 0
  not_untried w e =
      let o = h.0 addr in
      let runs = occurrences-has addr p.active (get-has addr p.active w e) in omega arith

  -- The strikes of the other peers stay.
  struck_others :
      (w : ActiveWorker) (n : ℕ)
      → get addr p.active ≡ some w
      → (a : Bytes) → 1 ≤ occurrences a p.untried
      → strike_count (get a (put addr n p.strikes)) < 3
  struck_others w n e a one =
      let none_left = not_untried w e in
      let s = h.1 a one in
      elim (Bool-cases (bytes_eq addr a)) [
        | inl here ↦
            let none_left' = rw (bytes_eq→eq addr a here) at none_left in absurd (omega arith)
        | inr there ↦ rw (get-put addr n p.strikes a, there) s
      ]

  pub recycle-IsPool :
      (w : Option ActiveWorker)
      → get addr p.active ≡ w
      → IsPool (recycle addr w (record p { active = delete addr p.active }))
  recycle-IsPool none e = unfold IsPool in (exited_once, h.1)
  recycle-IsPool (some w) e =
      let n = strikes_of addr p + 1 in
      elim (Bool-cases (ltb n 3)) [
        | inr out ↦ rw out (unfold IsPool in (exited_once, struck_others w n e))
        | inl again ↦
            let few : n < 3 = ground arith in
            rw again (
              unfold IsPool occurrences in
              (
                struck_once w e,
                λ a one.
                    let more = occurrences-append a p.untried (addr ∷ []) in
                    elim (Bool-cases (bytes_eq addr a)) [
                      | inl here ↦ rw (get-put addr n p.strikes a, here) few
                      | inr there ↦
                          let more' = rw there at more in struck_others w n e a (omega arith)
                    ],
              ))
      ]

handle_worker_exit-IsPool :
    (now : ℕ) (addr : Bytes) (p : PeerPool) → IsPool p → IsPool (handle_worker_exit now addr p)
unfolding handle_worker_exit
handle_worker_exit-IsPool now addr p h =
    let once : IsOnce p.untried p = unfold IsPool in h in
    let left = recycle addr (get addr p.active) (record p { active = delete addr p.active }) in
    backfill-IsPool now (left.max_slots - length left.active) left
      (recycle-IsPool addr p once (get addr p.active) refl)

-- Cancelling keeps addresses and strikes.
pub cancel_one-keys :
    (w : Option ActiveWorker) (addr : Bytes) (p : PeerPool)
    → get addr p.active ≡ w
    → keys (cancel_one w addr p).active ≡ keys p.active
cancel_one-keys none addr p e = refl
cancel_one-keys (some w) addr p e = keys-put_known addr _ p.active (get-has addr p.active w e)

cancel_one-IsPool :
    (w : Option ActiveWorker) (addr : Bytes) (p : PeerPool)
    → get addr p.active ≡ w
    → IsPool p
    → IsPool (cancel_one w addr p)
cancel_one-IsPool none addr p e h = h
cancel_one-IsPool (some w) addr p e h =
    let once : IsOnce p.untried p = unfold IsPool in h in
    let same = cancel_one-keys (some w) addr p e in
    unfold IsPool in (λ a. rw same (once.0 a), once.1)

pub cancel_all-IsPool : (addrs : List Bytes) (p : PeerPool) → IsPool p → IsPool (cancel_all addrs p)
unfolding cancel_all
cancel_all-IsPool [] p h = h
cancel_all-IsPool (addr ∷ addrs) p h =
    cancel_all-IsPool addrs (cancel_one (get addr p.active) addr p)
      (cancel_one-IsPool (get addr p.active) addr p refl h)

pub snapshots-IsPool :
    (now : ℕ) (p : PeerPool) → IsPool p → IsPool (record p { active = snapshots now p.active })
snapshots-IsPool now p h =
    let once : IsOnce p.untried p = unfold IsPool in h in
    unfold IsPool in (λ a. rw (keys-snapshots now p.active) (once.0 a), once.1)

add_bytes-IsPool :
    (n : ℕ) (w : Option ActiveWorker) (addr : Bytes) (p : PeerPool)
    → get addr p.active ≡ w
    → IsPool p
    → IsPool (add_bytes n w addr p)
add_bytes-IsPool n none addr p e h = h
add_bytes-IsPool n (some w) addr p e h =
    let once : IsOnce p.untried p = unfold IsPool in h in
    let same =
      keys-put_known addr (record w { bytes = w.bytes + n }) p.active (get-has addr p.active w e) in
    unfold IsPool in (λ a. rw same (once.0 a), once.1)

reset_strikes-IsPool : (addr : Bytes) (p : PeerPool) → IsPool p → IsPool (reset_strikes addr p)
unfolding IsPool reset_strikes
reset_strikes-IsPool addr p (once, struck) = (
  once,
  λ a one.
      let fewer = struck a one in
      elim (Bool-cases (bytes_eq addr a)) [
        | inl here ↦ rw (get-delete addr p.strikes a, here) (omega arith)
        | inr there ↦ rw (get-delete addr p.strikes a, there) fewer
      ],
)

start_all-IsPool :
    (now : ℕ) (addrs : List Bytes) (p : PeerPool)
    → IsOnce (addrs ++ p.untried) p
    → IsPool (start_all now addrs p)
unfolding start_all start_worker
start_all-IsPool now [] p once = unfold IsPool in once
start_all-IsPool now (addr ∷ addrs) p once =
    start_all-IsPool now addrs (start_worker now addr p)
      (start_worker-IsOnce now addr (addrs ++ p.untried) p once)

block_received-IsPool :
    (n : ℕ) (addr : Bytes) (p : PeerPool) → IsPool p → IsPool (block_received n addr p)
unfolding block_received
block_received-IsPool n addr p h = add_bytes-IsPool n (get addr p.active) addr p refl h

evaluate-IsPool :
    {F : Type 0} (rate : ℕ → ℕ → F) (is_less : F → F → Bool) (now : ℕ) (p : PeerPool)
    → IsPool p
    → IsPool (evaluate rate is_less now p)
unfolding evaluate
evaluate-IsPool rate is_less now p h =
    let cancelled = to_cancel rate is_less now p in
    let seen = record p { active = snapshots now p.active } in
    backfill-IsPool now (length cancelled) (cancel_all cancelled seen)
      (cancel_all-IsPool cancelled seen (snapshots-IsPool now p h))

-- What can happen to a pool that starts with the peers of a download. The exit of a worker comes
-- in the name of any address; `rate` and `is_less` may be any functions.
pub data Reach {F : Type 0} (rate : ℕ → ℕ → F) (is_less : F → F → Bool) (max_peers : ℤ)
    (peers : List Bytes) : PeerPool → Type 0 where
  start :
      (now : ℕ)
      → Reach rate is_less max_peers peers
          (start_all now (take (slots_of max_peers) peers) (new_peer_pool max_peers peers))
  exit :
      (now : ℕ) (addr : Bytes) (p : PeerPool)
      → Reach rate is_less max_peers peers p
      → Reach rate is_less max_peers peers (handle_worker_exit now addr p)
  tick :
      (now : ℕ) (p : PeerPool)
      → Reach rate is_less max_peers peers p
      → Reach rate is_less max_peers peers (evaluate rate is_less now p)
  block :
      (n : ℕ) (addr : Bytes) (p : PeerPool)
      → Reach rate is_less max_peers peers p
      → Reach rate is_less max_peers peers (block_received n addr p)
  productive :
      (addr : Bytes) (p : PeerPool)
      → Reach rate is_less max_peers peers p
      → Reach rate is_less max_peers peers (reset_strikes addr p)

-- At any time in the run of a pool, for distinct peers, no peer has two workers, none is untried
-- while it has one, and none is untried with three strikes.
pub Reach-IsPool :
    {F : Type 0} (rate : ℕ → ℕ → F) (is_less : F → F → Bool) (max_peers : ℤ) (peers : List Bytes)
    (p : PeerPool)
    → ((a : Bytes) → occurrences a peers ≤ 1)
    → Reach rate is_less max_peers peers p
    → IsPool p
Reach-IsPool rate is_less max_peers peers p distinct (start now) =
    let slots = slots_of max_peers in
    let fresh = new_peer_pool max_peers peers in
    start_all-IsPool now (take slots peers) fresh (
      unfold new_peer_pool occurrences keys get in
      (λ a. rw (take-append-drop slots peers) (omega (arith, distinct a)), λ a one. omega arith))
Reach-IsPool rate is_less max_peers peers p distinct (exit now addr q r) =
    handle_worker_exit-IsPool now addr q (Reach-IsPool rate is_less max_peers peers q distinct r)
Reach-IsPool rate is_less max_peers peers p distinct (tick now q r) =
    let h = Reach-IsPool rate is_less max_peers peers q distinct r in
    evaluate-IsPool rate is_less now q h
Reach-IsPool rate is_less max_peers peers p distinct (block n addr q r) =
    let h = Reach-IsPool rate is_less max_peers peers q distinct r in
    block_received-IsPool n addr q h
Reach-IsPool rate is_less max_peers peers p distinct (productive addr q r) =
    reset_strikes-IsPool addr q (Reach-IsPool rate is_less max_peers peers q distinct r)
