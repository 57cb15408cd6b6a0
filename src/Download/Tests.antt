-- ===== src/Download/Tests.antt =====
-- Runs of the picker, and its properties at concrete inputs.
use project_based_learning.Base.{
  ℕ, zero, suc, ◌+◌, ◌≤◌, ◌^◌, ◌-◌, ◌≡◌, ◌⊎◌, refl, true, false, some, none, List, Option, [], ◌∷◌,
  take, arith, ◌==◌, ltb, if◌then◌else◌, Bytes, pos, ◌≤ℤ◌,
}
use project_based_learning.Base.Fallible.{ok, panic}
use project_based_learning.Peer.Message.{
  Message, new_unchoke, new_have, new_have_all, new_piece, parse_request,
}
use project_based_learning.Download.Piece.{
  block_count, block_request, negotiate_unchoke, download_and_verify,
}
use project_based_learning.Download.Piece.Complete.{
  serve, Answers, done, other, reply, download_and_verify-Answers,
}
use project_based_learning.Download.Piece.Unchoke.{negotiate_unchoke-full}
use project_based_learning.Download.Bitfield.{has_piece}
use project_based_learning.Download.Picker.{
  Picker, new_picker, done_at, inflight_at, frequency_at, add_peer, consider, scan, draw, pick_from,
  pick, finish, abort, remaining,
}
use project_based_learning.Download.Picker.Choice.{IsOutcome, pick-IsOutcome}
use project_based_learning.Download.Picker.State.{IsValid, finish_lem}
use project_based_learning.Download.Picker.Reach.{
  join, complete, give_up, here, next, Reach-IsValid,
}

-- Three pieces; the first is done, the second is rarer than the third.
abbrev swarm : Picker
swarm = record {
  num_pieces = 3;
  frequency = pos 1 ∷ pos 1 ∷ pos 2 ∷ [];
  done = true ∷ false ∷ false ∷ [];
  inflight = false ∷ false ∷ false ∷ [];
  endgame = false;
}

abbrev first : ℕ → ℕ
first n = 0

picks_rarest : (pick first (0xe0 ∷ []) swarm).1 ≡ some 1
unfolding pick pick_from scan consider draw has_piece
picks_rarest = refl

bounded : (j : ℕ) → frequency_at swarm j ≤ℤ pos (2 ^ 63 - 1)
bounded zero = omega arith
bounded (suc zero) = omega arith
bounded (suc (suc zero)) = omega arith
bounded (suc (suc (suc j))) = omega arith

swarm-IsValid : IsValid swarm
swarm-IsValid = record {
  frequency_length = refl;
  done_length = refl;
  inflight_length = refl;
  exclusive = exclusive;
}
  where
    exclusive : (i : ℕ) → done_at swarm i ≡ true → inflight_at swarm i ≡ false
    exclusive zero h = refl
    exclusive (suc zero) h = refl
    exclusive (suc (suc zero)) h = refl
    exclusive (suc (suc (suc i))) h = refl

pick-IsOutcome_example : IsOutcome swarm (0xe0 ∷ []) (pick first (0xe0 ∷ []) swarm)
pick-IsOutcome_example = pick-IsOutcome first (0xe0 ∷ []) swarm (λ n h. h) bounded

finish_lem_example :
    ((swarm.num_pieces ≤ 1) × (finish 1 swarm ≡ panic))
    ⊎ ((q : Picker) × (finish 1 swarm ≡ ok q)
        × IsValid q
        × ((j : ℕ) → done_at q j ≡ (if 1 == j then true else done_at swarm j))
        × ((j : ℕ) → inflight_at q j ≡ (if 1 == j then false else inflight_at swarm j))
        × (remaining q + (if done_at swarm 1 then 0 else 1) ≡ remaining swarm))
finish_lem_example = finish_lem 1 swarm swarm-IsValid

abbrev joined : Picker
joined = add_peer (0x80 ∷ []) (new_picker 2)

-- The first piece is done and the second one given up.
abbrev worked : Picker
worked = record joined { done = true ∷ false ∷ []; inflight = false ∷ false ∷ [] }

Reach-IsValid_example : IsValid worked × (worked.num_pieces ≡ 2)
unfolding finish abort add_peer new_picker
Reach-IsValid_example = Reach-IsValid 2 {p = worked} (
    next
      (next (next here (join (0x80 ∷ []) (new_picker 2)))
        (complete {p = joined} {q = worked} 0 refl))
      (give_up {p = worked} {q = worked} 1 refl))

-- A stand-in for the hash function: the first two bytes.
abbrev prefix : Bytes → Bytes
prefix d = take 2 d

abbrev small : Bytes
small = 5 ∷ 6 ∷ 7 ∷ []

-- The only block, after a keep-alive and a message of another kind.
abbrev replies : List (Option Message)
replies = none ∷ some (new_have 4) ∷ some (new_piece 2 0 small) ∷ []

replies-Answers : Answers small 2 (0 ∷ []) replies
unfolding serve block_request parse_request
replies-Answers = other (0 ∷ []) none _ tt (
    other (0 ∷ []) (some (new_have 4)) _ (omega arith, omega arith)
      (reply 0 [] (new_piece 2 0 small) [] refl (done [])))

download_and_verify-Answers_example :
    download_and_verify prefix 64 true 2 3 (prefix small) replies ≡ ok small
unfolding block_count
download_and_verify-Answers_example =
    download_and_verify-Answers prefix 64 small 2 (0 ∷ []) replies (omega arith) (omega arith)
      (omega arith) refl (omega arith, tt) (λ i less. ground arith) replies-Answers

negotiate_unchoke-full_example :
    (bits : Bytes) × (negotiate_unchoke true 10 (none ∷ some new_have_all ∷ some new_unchoke ∷ [])
      ≡ ok bits)
    × ((i : ℕ) → has_piece bits i ≡ ltb i 10)
negotiate_unchoke-full_example =
    negotiate_unchoke-full 10 (none ∷ some new_have_all ∷ []) []
      (tt, ((omega arith, omega arith, omega arith), tt))
