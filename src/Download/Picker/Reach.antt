-- ===== src/Download/Picker/Reach.antt =====
-- The picker under any sequence of calls of its methods, in any order and by any number of
-- workers: each call holds the mutex, so the calls come one after the other.
use project_based_learning.Base.{
  ℕ, ◌^◌, ◌-◌, ◌≡◌, refl, ◌∙◌, true, false, Option, none, some, arith, Bytes, pos, ◌≤ℤ◌, get_or-set,
  inl, inr,
}
use project_based_learning.Base.Fallible.{ok}
use mathlib.Core.Path.{subst}
use project_based_learning.Download.Picker.{
  Picker, new_picker, done_at, frequency_at, add_peer, remove_peer, pick, finish, abort,
}
use project_based_learning.Download.Picker.Choice.{
  IsRandom, IsPick, rarest, duplicate, IsOutcome, pick-IsOutcome,
}
use project_based_learning.Download.Picker.State.{
  IsValid, new_picker-IsValid, add_peer-IsValid, remove_peer-IsValid, pick-IsValid, finish-ok,
  abort-ok, finished-IsValid, aborted-IsValid,
}

-- One call. A frequency is a Go int; the calls that panic end the program and have no step.
pub data Step : Picker → Picker → Type 0 where
  join : (bits : Bytes) (p : Picker) → Step p (add_peer bits p)
  leave : (bits : Bytes) (p : Picker) → Step p (remove_peer bits p)
  choose :
      (rand : ℕ → ℕ) (bits : Bytes) (p : Picker)
      → IsRandom rand
      → ((j : ℕ) → frequency_at p j ≤ℤ pos (2 ^ 63 - 1))
      → Step p (pick rand bits p).0
  complete : {p q : Picker} (i : ℕ) → finish i p ≡ ok q → Step p q
  give_up : {p q : Picker} (i : ℕ) → abort i p ≡ ok q → Step p q

pub data Reach (s : Picker) : Picker → Type 0 where
  here : Reach s s
  next : {p q : Picker} → Reach s p → Step p q → Reach s q

Step-IsValid : {p q : Picker} → Step p q → IsValid p → IsValid q
Step-IsValid (join bits p) v = add_peer-IsValid bits p v
Step-IsValid (leave bits p) v = remove_peer-IsValid bits p v
Step-IsValid (choose rand bits p random bound) v = pick-IsValid rand bits p random bound v
Step-IsValid (complete {p} {q} i e) v =
    let (lt, is) = finish-ok i p q v e in subst IsValid is (finished-IsValid i p v lt)
Step-IsValid (give_up {p} {q} i e) v =
    let (lt, is) = abort-ok i p q v e in subst IsValid is (aborted-IsValid i p v lt)

-- What a step does to the set of pieces and to the done marks.
record Keeps (p q : Picker) : Type 0 where
  size : q.num_pieces ≡ p.num_pieces
  marks : (i : ℕ) → done_at p i ≡ true → done_at q i ≡ true

IsPick-Keeps : {p q : Picker} {bits : Bytes} {c : ℕ} → IsPick p bits q c → Keeps p q
IsPick-Keeps (rarest _ _) = record { size = refl; marks = λ i h. h }
IsPick-Keeps (duplicate _ _ _) = record { size = refl; marks = λ i h. h }

IsOutcome-Keeps :
    (p : Picker) (bits : Bytes) (r : Picker × Option ℕ) → IsOutcome p bits r → Keeps p r.0
IsOutcome-Keeps p bits (q, some c) o = IsPick-Keeps o.1
IsOutcome-Keeps p bits (q, none) (inl same, _) = rw same (record { size = refl; marks = λ i h. h })
IsOutcome-Keeps p bits (q, none) (inr entered, _) =
    rw entered (record { size = refl; marks = λ i h. h })

Step-Keeps : {p q : Picker} → Step p q → IsValid p → Keeps p q
unfolding add_peer remove_peer
Step-Keeps (join bits p) v = record { size = refl; marks = λ i h. h }
Step-Keeps (leave bits p) v = record { size = refl; marks = λ i h. h }
Step-Keeps (choose rand bits p random bound) v =
    IsOutcome-Keeps p bits (pick rand bits p) (pick-IsOutcome rand bits p random bound)
Step-Keeps (complete {p} {q} i e) v =
    let (lt, is) = finish-ok i p q v e in
    subst (Keeps p) is (record {
      size = refl;
      marks = λ j h.
          get_or-set p.done i j true false (omega (arith, v.done_length)) ∙ ground (arith, h);
    })
Step-Keeps (give_up {p} {q} i e) v =
    subst (Keeps p) (abort-ok i p q v e).1 (record { size = refl; marks = λ i h. h })

IsValid-along : {s p : Picker} → IsValid s → Reach s p → IsValid p
IsValid-along v here = v
IsValid-along v (next r st) = Step-IsValid st (IsValid-along v r)

Reach-Keeps : {s p : Picker} → IsValid s → Reach s p → Keeps s p
Reach-Keeps v here = record { size = refl; marks = λ i h. h }
Reach-Keeps v (next r st) =
    let k = Reach-Keeps v r in
    let l = Step-Keeps st (IsValid-along v r) in
    record { size = l.size ∙ k.size; marks = λ i h. l.marks i (k.marks i h) }

-- From a new picker, whatever calls are made that return, the picker is valid (its slices have one
-- element per piece, and no piece is both done and in flight) and has the same pieces.
pub Reach-IsValid : (n : ℕ) {p : Picker} → Reach (new_picker n) p → IsValid p × (p.num_pieces ≡ n)
unfolding new_picker
Reach-IsValid n r =
    (IsValid-along (new_picker-IsValid n) r, (Reach-Keeps (new_picker-IsValid n) r).size)

-- From a valid picker, whatever calls are made, a done piece stays done.
pub Reach-done :
    {p q : Picker} (i : ℕ) → IsValid p → Reach p q → done_at p i ≡ true → done_at q i ≡ true
Reach-done i v r = (Reach-Keeps v r).marks i
