-- ===== src/Download/Pool/Slots.antt =====
-- How many workers run after an exit and after an evaluation.
use project_based_learning.Base.{
  ℕ, zero, suc, ◌+◌, ◌-◌, ◌≤◌, ◌<◌, ◌≡◌, ◌≢◌, refl, ap, ◌∙◌, min, false, Option, none, some, List,
  [], ◌∷◌, ◌==◌, arith, length, length-append, drop, Bytes, All, All-append, Bool-cases, leb, ltb,
  ◌⊎◌, inl, inr,
}
use project_based_learning.Base.Wire.{bytes_eq_refl}
use project_based_learning.Base.Assoc.{get, delete}
use project_based_learning.Download.Pool.{
  ActiveWorker, PeerPool, start_worker, with_untried, backfill, strikes_of, recycle,
  handle_worker_exit,
}
use project_based_learning.Download.Pool.Keys.{
  keys, occurrences, occurrences-lacking, keys-put_new, length-keys,
}
use project_based_learning.Download.Pool.Reach.{IsOnce, IsPool, start_worker-IsOnce, recycle-IsPool}

-- Addresses are not empty.
abbrev pub AreNamed : List Bytes → Type 0
AreNamed untried = All (λ a. length a ≢ 0) untried

-- What `n` slots are filled with.
abbrev IsFilled : ℕ → List Bytes → PeerPool → PeerPool → Type 0
IsFilled n untried p q =
    (length q.active ≡ length p.active + min n (length untried))
    × (q.untried ≡ drop n untried)
    × (q.max_slots ≡ p.max_slots)

start_worker-length :
    (now : ℕ) (addr : Bytes) (untried : List Bytes) (p : PeerPool)
    → IsOnce (addr ∷ untried) p
    → length (start_worker now addr p).active ≡ length p.active + 1
unfolding start_worker occurrences
start_worker-length now addr untried p once =
    let self = bytes_eq_refl addr in
    let here = rw self at (once.0 addr) in
    let new = occurrences-lacking addr p.active (omega arith) in
    let grown =
      keys-put_new addr
        (record { bytes = 0; prev_bytes = 0; prev_time = now; started = now; is_cancelled = false })
        p.active new in
    let counted = ap length grown in
    let joined = length-append (keys p.active) (addr ∷ []) in
    let before = length-keys p.active in
    let after = length-keys (start_worker now addr p).active in omega arith

fill_step :
    (now n : ℕ) (p : PeerPool) (untried : List Bytes)
    → ((q : PeerPool) → IsPool q → AreNamed q.untried → IsFilled n q.untried q (backfill now n q))
    → p.untried ≡ untried
    → IsOnce untried p
    → AreNamed untried
    → IsFilled
        (suc n)
        untried
        p
        (with_untried p untried (λ addr rest. backfill now n (start_worker now addr rest)))
fill_step now n p [] ih e once named = (omega arith, e, refl)
fill_step now n p (addr ∷ untried) ih e once named =
    let rest = record p { untried = untried } in
    let next = start_worker now addr rest in
    let is_named : (length addr == 0) ≡ false = ground (arith, named.0) in
    let pool : IsPool next =
      unfold IsPool start_worker in start_worker-IsOnce now addr untried rest once in
    let grown = start_worker-length now addr untried rest once in
    let same_untried : next.untried ≡ untried = unfold start_worker in refl in
    let same_slots : next.max_slots ≡ p.max_slots = unfold start_worker in refl in
    let still_named : AreNamed next.untried = unfold start_worker in named.1 in
    let (count, left, slots) = ih next pool still_named in
    let fewer = ap length same_untried in
    rw is_named (omega arith, left ∙ ap (drop n) same_untried, slots ∙ same_slots)

backfill_lem :
    (now n : ℕ) (p : PeerPool)
    → IsPool p
    → AreNamed p.untried
    → IsFilled n p.untried p (backfill now n p)
unfolding backfill
backfill_lem now zero p h named = (omega arith, refl, refl)
backfill_lem now (suc n) p h named =
    let once : IsOnce p.untried p = unfold IsPool in h in
    fill_step now n p p.untried (λ q. backfill_lem now n q) refl once named

drop_all : (n : ℕ) (xs : List Bytes) → length xs ≤ n → drop n xs ≡ []
drop_all zero [] h = refl
drop_all zero (x ∷ xs) h = absurd (omega arith)
drop_all (suc n) [] h = refl
drop_all (suc n) (x ∷ xs) h = drop_all n xs (omega arith)

recycle-named :
    (addr : Bytes) (w : Option ActiveWorker) (p : PeerPool)
    → AreNamed p.untried
    → length addr ≢ 0
    → AreNamed (recycle addr w p).untried × ((recycle addr w p).max_slots ≡ p.max_slots)
recycle-named addr none p named h = (named, refl)
recycle-named addr (some w) p named h = elim (Bool-cases (ltb (strikes_of addr p + 1) 3)) [
  | inl again ↦ rw again (All-append (λ a. length a ≢ 0) p.untried (addr ∷ []) named (h, tt), refl)
  | inr out ↦ rw out (named, refl)
]

-- After an exit the free slots are filled: no peer is untried, or the slots are in use.
pub handle_worker_exit-full :
    (now : ℕ) (addr : Bytes) (p : PeerPool)
    → IsPool p
    → AreNamed p.untried
    → length addr ≢ 0
    → let q = handle_worker_exit now addr p in (q.untried ≡ []) ⊎ (p.max_slots ≤ length q.active)
unfolding handle_worker_exit
handle_worker_exit-full now addr p h named addr_named =
    let once : IsOnce p.untried p = unfold IsPool in h in
    let left = recycle addr (get addr p.active) (record p { active = delete addr p.active }) in
    let pool = recycle-IsPool addr p once (get addr p.active) refl in
    let (still, slots) =
      recycle-named addr (get addr p.active) (record p { active = delete addr p.active }) named
        addr_named in
    let n = left.max_slots - length left.active in
    let (count, rest, same) = backfill_lem now n left pool still in
    elim (Bool-cases (leb (length left.untried) n)) [
      | inl few ↦ inl (rest ∙ drop_all n left.untried (ground arith))
      | inr many ↦ inr (let more : n < length left.untried = ground arith in omega arith)
    ]
