-- ===== src/Download/Picker/State.antt =====
-- The invariant of the picker, and what each method does to its state.
use project_based_learning.Base.{
  ℕ, zero, suc, ◌+◌, ◌-◌, ◌≤◌, ◌<◌, ◌^◌, ◌≡◌, ◌↔◌, ◌⊎◌, inl, inr, refl, ap, ◌∙◌, Bool, true, false,
  Option, none, some, List, [], ◌∷◌, arith, Bytes, ℤ, pos, ◌≤ℤ◌, add_64, sub_64, sub_64-add_64,
  IsInt64, All, length, get_or, set, length-set, length-replicate, get_or-set, get_or-replicate,
  Bool-cases, ◌==◌, if◌then◌else◌,
}
use native.Mathlib.Nat.{zero-add}
use project_based_learning.Base.Fallible.{ok, panic}
use project_based_learning.Download.Bitfield.{has_piece}
use project_based_learning.Download.Picker.{
  Picker, new_picker, done_at, inflight_at, frequency_at, count, add_peer, remove_peer, pick,
  finish, abort, all_done, complete, count_left, remaining,
}
use project_based_learning.Download.Picker.Choice.{
  IsRandom, IsPick, rarest, duplicate, IsOutcome, pick-IsOutcome,
}

-- The slices have one element for each piece, and no piece is both done and in flight.
pub record IsValid (p : Picker) : Type 0 where
  pub frequency_length : length p.frequency ≡ p.num_pieces
  pub done_length : length p.done ≡ p.num_pieces
  pub inflight_length : length p.inflight ≡ p.num_pieces
  pub exclusive : (i : ℕ) → done_at p i ≡ true → inflight_at p i ≡ false

pub new_picker-IsValid : (n : ℕ) → IsValid (new_picker n)
unfolding new_picker
new_picker-IsValid n = record {
  frequency_length = length-replicate n (pos 0);
  done_length = length-replicate n false;
  inflight_length = length-replicate n false;
  exclusive = λ i h. get_or-replicate n i false;
}

length-count :
    (step : ℤ → ℤ) (bits : Bytes) (i : ℕ) (fs : List ℤ) → length (count step bits i fs) ≡ length fs
unfolding count
length-count step bits i [] = refl
length-count step bits i (f ∷ fs) = ap suc (length-count step bits (suc i) fs)

pub add_peer-IsValid : (bits : Bytes) (p : Picker) → IsValid p → IsValid (add_peer bits p)
unfolding add_peer
add_peer-IsValid bits p v = record {
  frequency_length = length-count (λ f. add_64 f (pos 1)) bits 0 p.frequency ∙ v.frequency_length;
  done_length = v.done_length;
  inflight_length = v.inflight_length;
  exclusive = v.exclusive;
}

pub remove_peer-IsValid : (bits : Bytes) (p : Picker) → IsValid p → IsValid (remove_peer bits p)
unfolding remove_peer
remove_peer-IsValid bits p v = record {
  frequency_length = length-count (λ f. sub_64 f (pos 1)) bits 0 p.frequency ∙ v.frequency_length;
  done_length = v.done_length;
  inflight_length = v.inflight_length;
  exclusive = v.exclusive;
}

-- With a piece that is not done in flight, the picker is still valid.
mark-IsValid :
    (p : Picker) (c : ℕ)
    → c < p.num_pieces
    → done_at p c ≡ false
    → IsValid p
    → IsValid (record p { inflight = set p.inflight c true })
mark-IsValid p c lt fresh v = record {
  frequency_length = v.frequency_length;
  done_length = v.done_length;
  inflight_length = length-set p.inflight c true ∙ v.inflight_length;
  exclusive = λ i h.
      get_or-set p.inflight c i true false (omega (arith, v.inflight_length))
      ∙ ground (arith, v.exclusive i h, fresh, h);
}

IsPick-IsValid :
    {p q : Picker} {bits : Bytes} {c : ℕ}
    → IsPick p bits q c
    → c < p.num_pieces
    → IsValid p
    → IsValid q
IsPick-IsValid {p} (rarest {c} e _) lt v = mark-IsValid p c lt e.not_done v
IsPick-IsValid {p} (duplicate _ _ _) lt v = record {
  frequency_length = v.frequency_length;
  done_length = v.done_length;
  inflight_length = v.inflight_length;
  exclusive = v.exclusive;
}

IsOutcome-IsValid :
    (p : Picker) (bits : Bytes) (r : Picker × Option ℕ)
    → IsOutcome p bits r
    → IsValid p
    → IsValid r.0
IsOutcome-IsValid p bits (q, some c) o v = IsPick-IsValid o.1 o.0 v
IsOutcome-IsValid p bits (q, none) (inl same, _) v = rw same v
IsOutcome-IsValid p bits (q, none) (inr entered, _) v = rw entered (record {
  frequency_length = v.frequency_length;
  done_length = v.done_length;
  inflight_length = v.inflight_length;
  exclusive = v.exclusive;
})

pub pick-IsValid :
    (rand : ℕ → ℕ) (bits : Bytes) (p : Picker)
    → IsRandom rand
    → ((j : ℕ) → frequency_at p j ≤ℤ pos (2 ^ 63 - 1))
    → IsValid p
    → IsValid (pick rand bits p).0
pick-IsValid rand bits p random bound v =
    IsOutcome-IsValid p bits (pick rand bits p) (pick-IsOutcome rand bits p random bound) v

-- The picker after `Finish`, and after `Abort`, at an index that is a piece.
abbrev pub finished : ℕ → Picker → Picker
finished i p = record p { done = set p.done i true; inflight = set p.inflight i false }

abbrev pub aborted : ℕ → Picker → Picker
aborted i p = record p { inflight = set p.inflight i false }

module _ (i : ℕ) (p : Picker) (v : IsValid p) where
  pub finish_cases :
      ((i < p.num_pieces) × (finish i p ≡ ok (finished i p)))
      ⊎ ((p.num_pieces ≤ i) × (finish i p ≡ panic))
  unfolding finish
  finish_cases = grind (arith, v.done_length, v.inflight_length)

  abort_cases :
      ((i < p.num_pieces) × (abort i p ≡ ok (aborted i p)))
      ⊎ ((p.num_pieces ≤ i) × (abort i p ≡ panic))
  unfolding abort
  abort_cases = grind (arith, v.inflight_length)

  pub finished-IsValid : i < p.num_pieces → IsValid (finished i p)
  finished-IsValid lt = record {
    frequency_length = v.frequency_length;
    done_length = length-set p.done i true ∙ v.done_length;
    inflight_length = length-set p.inflight i false ∙ v.inflight_length;
    exclusive = λ j h. ground (
      arith,
      v.exclusive j,
      v.done_length,
      v.inflight_length,
      get_or-set p.inflight i j false false,
      get_or-set p.done i j true false,
      h,
    );
  }

  pub aborted-IsValid : i < p.num_pieces → IsValid (aborted i p)
  aborted-IsValid lt = record {
    frequency_length = v.frequency_length;
    done_length = v.done_length;
    inflight_length = length-set p.inflight i false ∙ v.inflight_length;
    exclusive = λ j h.
        ground (arith, v.exclusive j h, v.inflight_length, get_or-set p.inflight i j false false);
  }

-- What a call that returns has done.
pub finish-ok :
    (i : ℕ) (p q : Picker) → IsValid p → finish i p ≡ ok q → (i < p.num_pieces) × (finished i p ≡ q)
finish-ok i p q v e = elim (finish_cases i p v) [
  | inl (lt, done) ↦ (lt, cc)
  | inr (le, fail) ↦ absurd (cc)
]

pub abort-ok :
    (i : ℕ) (p q : Picker) → IsValid p → abort i p ≡ ok q → (i < p.num_pieces) × (aborted i p ≡ q)
abort-ok i p q v e = elim (abort_cases i p v) [
  | inl (lt, done) ↦ (lt, cc)
  | inr (le, fail) ↦ absurd (cc)
]

count-inverse :
    (bits : Bytes) (i : ℕ) (fs : List ℤ)
    → All IsInt64 fs
    → count (λ f. sub_64 f (pos 1)) bits i (count (λ f. add_64 f (pos 1)) bits i fs) ≡ fs
unfolding count
count-inverse bits i [] h = refl
count-inverse bits i (f ∷ fs) h = elim (Bool-cases (has_piece bits i)) [
  | inl known ↦ rw (known, sub_64-add_64 f h.0, count-inverse bits (suc i) fs h.1) refl
  | inr other ↦ rw (other, count-inverse bits (suc i) fs h.1) refl
]

-- A peer that joins and leaves changes nothing, even where a frequency wraps around.
pub remove_peer-add_peer :
    (bits : Bytes) (p : Picker) → All IsInt64 p.frequency → remove_peer bits (add_peer bits p) ≡ p
unfolding add_peer remove_peer
remove_peer-add_peer bits p h =
    let e = count-inverse bits 0 p.frequency h in λ i. record p { frequency = e i }

all_done_iff : (ds : List Bool) → (all_done ds ≡ true) ↔ (count_left ds ≡ 0)
unfolding all_done count_left
all_done_iff [] = (λ _. refl, λ _. refl)
all_done_iff (true ∷ ds) = rw zero-add (all_done_iff ds)
all_done_iff (false ∷ ds) = (λ h. cc, λ h. absurd (omega arith))

-- `Done` reports the end exactly when `Remaining` is 0.
pub complete_iff : (p : Picker) → (complete p ≡ true) ↔ (remaining p ≡ 0)
unfolding complete remaining
complete_iff p = all_done_iff p.done

count_left-set :
    (ds : List Bool) (i : ℕ)
    → i < length ds
    → get_or ds i false ≡ false
    → count_left (set ds i true) + 1 ≡ count_left ds
unfolding count_left
count_left-set [] i lt h = absurd (omega arith)
count_left-set (d ∷ ds) zero lt h = ground arith
count_left-set (d ∷ ds) (suc i) lt h = ground (arith, count_left-set ds i)

count_left-set_done :
    (ds : List Bool) (i : ℕ) → get_or ds i false ≡ true → count_left (set ds i true) ≡ count_left ds
unfolding count_left
count_left-set_done [] i h = refl
count_left-set_done (d ∷ ds) zero h = ground arith
count_left-set_done (d ∷ ds) (suc i) h = ground (arith, count_left-set_done ds i h)

-- `Finish` on a piece succeeds, marks that piece as done and as not in flight, leaves all others
-- alone, takes the piece off the count of what remains if it was not done, and keeps the picker
-- valid. On any other index it panics.
pub finish_lem :
    (i : ℕ) (p : Picker)
    → IsValid p
    → ((p.num_pieces ≤ i) × (finish i p ≡ panic))
      ⊎ ((q : Picker) × (finish i p ≡ ok q)
          × IsValid q
          × ((j : ℕ) → done_at q j ≡ (if i == j then true else done_at p j))
          × ((j : ℕ) → inflight_at q j ≡ (if i == j then false else inflight_at p j))
          × (remaining q + (if done_at p i then 0 else 1) ≡ remaining p))
unfolding remaining
finish_lem i p v = elim (finish_cases i p v) [
  | inr (le, e) ↦ inl (le, e)
  | inl (lt, e) ↦
      let here : i < length p.done = omega (arith, v.done_length) in
      inr (
        finished i p,
        e,
        finished-IsValid i p v lt,
        λ j. get_or-set p.done i j true false here,
        λ j. get_or-set p.inflight i j false false (omega (arith, v.inflight_length)),
        elim (Bool-cases (done_at p i)) [
          | inl old ↦ rw old (omega (arith, count_left-set_done p.done i old))
          | inr new ↦ rw new (count_left-set p.done i here new)
        ],
      )
]
