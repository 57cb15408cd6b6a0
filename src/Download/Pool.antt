-- ===== src/Download/Pool.antt =====
-- The workers of a download (download/pool.go). A time is a number of nanoseconds and an argument.
-- The session of a worker is left out but for its effects on the pool: bytes that arrive, a reset
-- of the strikes, and its exit, which `run` handles. Speeds are floating-point numbers: `rate` is
-- the speed of a number of bytes in a time and `is_less` their order.
pub mod Keys
pub mod Reach
pub mod Slots
mod Tests
use project_based_learning.Base.{
  ℕ, zero, suc, ◌+◌, ◌-◌, ◌/◌, ℤ, pos, pos_part, ltb_ℤ, min, Bool, true, false, not, Option, none,
  some, List, [], ◌∷◌, ◌++◌, map, ltb, ◌==◌, if◌then◌else◌, length, take, drop, Bytes,
}
use project_based_learning.Base.Assoc.{get, put, delete}
use project_based_learning.Base.Sorting.{sort_by}

-- The address is the key of the worker in `active`; `is_cancelled` is the state of its context.
pub record ActiveWorker : Type 0 where
  pub bytes : ℕ
  pub prev_bytes : ℕ
  pub prev_time : ℕ
  pub started : ℕ
  pub is_cancelled : Bool

pub record PeerPool : Type 0 where
  pub max_slots : ℕ
  pub rotate_count : ℕ
  pub untried : List Bytes
  pub active : List (Bytes × ActiveWorker)
  pub strikes : List (Bytes × ℕ)

abbrev pub grace_period : ℕ
grace_period = 5000000000

-- The configured number of peers, if it is positive.
abbrev pub slots_of : ℤ → ℕ
slots_of max_peers = if ltb_ℤ (pos 0) max_peers then pos_part max_peers else 30

unfoldable pub new_peer_pool : ℤ → List Bytes → PeerPool
new_peer_pool max_peers peers =
    let max_slots = slots_of max_peers in
    record {
      max_slots = max_slots;
      rotate_count = if ltb (max_slots / 10) 1 then 1 else max_slots / 10;
      untried = drop max_slots peers;
      active = [];
      strikes = [];
    }

unfoldable pub start_worker : ℕ → Bytes → PeerPool → PeerPool
start_worker now addr p = record p {
  active =
      put addr
        (record { bytes = 0; prev_bytes = 0; prev_time = now; started = now; is_cancelled = false })
        p.active;
}

-- The first loop of `run`.
unfoldable pub start_all : ℕ → List Bytes → PeerPool → PeerPool
start_all now [] p = p
start_all now (addr ∷ addrs) p = start_all now addrs (start_worker now addr p)

-- `pickUntried`, and what follows if it gives an address: the empty one counts as none.
abbrev pub with_untried : PeerPool → List Bytes → (Bytes → PeerPool → PeerPool) → PeerPool
with_untried p [] next = p
with_untried p (addr ∷ untried) next =
    let rest = record p { untried = untried } in if length addr == 0 then rest else next addr rest

-- The loops that fill `n` slots.
unfoldable pub backfill : ℕ → ℕ → PeerPool → PeerPool
backfill now zero p = p
backfill now (suc n) p =
    with_untried p p.untried (λ addr rest. backfill now n (start_worker now addr rest))

abbrev pub strike_count : Option ℕ → ℕ
strike_count none = 0
strike_count (some n) = n

abbrev pub strikes_of : Bytes → PeerPool → ℕ
strikes_of addr p = strike_count (get addr p.strikes)

-- The worker of an address, if there is one, is struck, and tried again up to three times.
abbrev pub recycle : Bytes → Option ActiveWorker → PeerPool → PeerPool
recycle addr none p = p
recycle addr (some w) p =
    let n = strikes_of addr p + 1 in
    record p {
      strikes = put addr n p.strikes;
      untried = if ltb n 3 then p.untried ++ addr ∷ [] else p.untried;
    }

unfoldable pub handle_worker_exit : ℕ → Bytes → PeerPool → PeerPool
handle_worker_exit now addr p =
    let left = recycle addr (get addr p.active) (record p { active = delete addr p.active }) in
    backfill now (left.max_slots - length left.active) left

-- A worker that is productive has no strikes.
unfoldable pub reset_strikes : Bytes → PeerPool → PeerPool
reset_strikes addr p = record p { strikes = delete addr p.strikes }

abbrev pub add_bytes : ℕ → Option ActiveWorker → Bytes → PeerPool → PeerPool
add_bytes n none addr p = p
add_bytes n (some w) addr p = record p {
  active = put addr (record w { bytes = w.bytes + n }) p.active;
}

-- The callback for blocks.
unfoldable pub block_received : ℕ → Bytes → PeerPool → PeerPool
block_received n addr p = add_bytes n (get addr p.active) addr p

unfoldable pub snapshot : ℕ → ActiveWorker → ActiveWorker
snapshot now w = record w { prev_bytes = w.bytes; prev_time = now }

unfoldable pub snapshots : ℕ → List (Bytes × ActiveWorker) → List (Bytes × ActiveWorker)
snapshots now [] = []
snapshots now ((addr, w) ∷ active) = (addr, snapshot now w) ∷ snapshots now active

abbrev pub in_grace : ℕ → ActiveWorker → Bool
in_grace now w = ltb now (w.started + grace_period)

-- Past the grace period without a byte.
unfoldable pub dead : ℕ → List (Bytes × ActiveWorker) → List Bytes
dead now [] = []
dead now ((addr, w) ∷ active) =
    let rest = dead now active in
    if in_grace now w then rest else if w.bytes == 0 then addr ∷ rest else rest

abbrev pub cancel_one : Option ActiveWorker → Bytes → PeerPool → PeerPool
cancel_one none addr p = p
cancel_one (some w) addr p = record p {
  active = put addr (record w { is_cancelled = true }) p.active;
}

unfoldable pub cancel_all : List Bytes → PeerPool → PeerPool
cancel_all [] p = p
cancel_all (addr ∷ addrs) p = cancel_all addrs (cancel_one (get addr p.active) addr p)

module _ {F : Type 0} (rate : ℕ → ℕ → F) (is_less : F → F → Bool) where
  unfoldable pub speed : ℕ → ActiveWorker → F
  speed now w =
      if ltb w.prev_time now then rate (w.bytes - w.prev_bytes) (now - w.prev_time) else rate 0 1

  -- Past the grace period with some bytes, with the speed.
  unfoldable pub live : ℕ → List (Bytes × ActiveWorker) → List (Bytes × F)
  live now [] = []
  live now ((addr, w) ∷ active) =
      let rest = live now active in
      if in_grace now w then rest else if w.bytes == 0 then rest else (addr, speed now w) ∷ rest

  abbrev pub is_slower : Bytes × F → Bytes × F → Bool
  is_slower a b = not (is_less b.1 a.1)

  abbrev pub addrs : List (Bytes × F) → List Bytes
  addrs [] = []
  addrs (r ∷ ranked) = r.0 ∷ addrs ranked

  -- The slowest live workers, where more peers are untried than workers are dead.
  abbrev pub slowest : ℕ → ℕ → ℕ → List (Bytes × F) → List Bytes
  slowest rotate_count available dead_count ranked =
      if ltb dead_count available
      then addrs (take (min rotate_count (available - dead_count)) (sort_by is_slower ranked))
      else []

  -- The workers that an evaluation cancels.
  unfoldable pub to_cancel : ℕ → PeerPool → List Bytes
  to_cancel now p =
      let gone = dead now p.active in
      gone ++ slowest p.rotate_count (length p.untried) (length gone) (live now p.active)

  unfoldable pub evaluate : ℕ → PeerPool → PeerPool
  evaluate now p =
      let cancelled = to_cancel now p in
      backfill now (length cancelled)
        (cancel_all cancelled (record p { active = snapshots now p.active }))
