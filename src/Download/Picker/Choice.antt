-- ===== src/Download/Picker/Choice.antt =====
-- What `Pick` returns, and what it changes.
use mathlib.Core.Path.{subst}
use mathlib.Core.List.{cons-ne-nil, concat-ne-nil}
use project_based_learning.Base.{
  ℕ, zero, suc, ◌-◌, ◌<◌, ◌^◌, ◌≡◌, ◌≢◌, ◌⊎◌, inl, inr, refl, true, false, not, ◌&&◌, ◌||◌, Option,
  none, some, List, [], ◌∷◌, arith, All, All-append, All-get_or, Bytes, ℤ, pos, ◌≤ℤ◌, length, set,
  Bool-cases,
}
use project_based_learning.Download.Bitfield.{has_piece}
use project_based_learning.Download.Picker.{
  Picker, done_at, inflight_at, frequency_at, duplicates, all_taken, should_enter_endgame, draw,
  pick_endgame, take_piece, pick_from, pick,
}
use project_based_learning.Download.Picker.Scan.{IsEligible, IsRarest, below_suc, scan-IsRarest}

-- What `rand.IntN` promises.
abbrev pub IsRandom : (ℕ → ℕ) → Type 0
IsRandom rand = (n : ℕ) → 0 < n → rand n < n

draw-All :
    (rand : ℕ → ℕ) (P : ℕ → Type 0) (cs : List ℕ) {c : ℕ}
    → IsRandom rand
    → All P cs
    → draw rand cs ≡ some c
    → P c
unfolding draw
draw-All rand P [] r h e = cc
draw-All rand P (x ∷ xs) r h e =
    let inside = All-get_or P (x ∷ xs) (rand (length (x ∷ xs))) 0 h (r _ (omega arith)) in
    subst P (cc) inside

draw-ne-none : (rand : ℕ → ℕ) (cs : List ℕ) → draw rand cs ≡ none → cs ≡ []
unfolding draw
draw-ne-none rand [] e = refl
draw-ne-none rand (x ∷ xs) e = cc

-- A piece that is handed out twice at the start of the endgame.
pub record IsDuplicate (p : Picker) (bits : Bytes) (i : ℕ) : Type 0 where
  pub not_done : done_at p i ≡ false
  pub in_flight : inflight_at p i ≡ true
  pub held : has_piece bits i ≡ true

module _ (p : Picker) (bits : Bytes) where
  widen :
      (n : ℕ) (cs : List ℕ)
      → All (λ c. (c < n) × IsDuplicate p bits c) cs
      → All (λ c. (c < suc n) × IsDuplicate p bits c) cs
  widen n [] h = tt
  widen n (c ∷ cs) h = ((omega arith, h.0.1), widen n cs h.1)

  duplicates_sound : (n : ℕ) → All (λ c. (c < n) × IsDuplicate p bits c) (duplicates p bits n)
  unfolding duplicates
  duplicates_sound zero = tt
  duplicates_sound (suc n) =
      let before = widen n (duplicates p bits n) (duplicates_sound n) in
      elim (Bool-cases (done_at p n || not (inflight_at p n))) [
        | inl free ↦ rw free before
        | inr taken ↦ elim (Bool-cases (has_piece bits n)) [
          | inr lacks ↦ rw (taken, lacks) before
          | inl holds ↦
              rw (taken, holds)
                (All-append _ (duplicates p bits n) (n ∷ []) before (
                  (
                    omega arith,
                    record { not_done = ground arith; in_flight = ground arith; held = holds },
                  ),
                  tt,
                ))
        ]
      ]

  before :
      (n j : ℕ)
      → ((i : ℕ) → i < n → IsDuplicate p bits i → duplicates p bits n ≢ [])
      → j < suc n
      → IsDuplicate p bits j
      → ¬ IsDuplicate p bits n
      → duplicates p bits n ≢ []
  before n j ih lt d other =
      below_suc (λ i. IsDuplicate p bits i → duplicates p bits n ≢ []) n ih (λ e. absurd (other e))
        j lt d

  duplicates_complete : (n j : ℕ) → j < n → IsDuplicate p bits j → duplicates p bits n ≢ []
  unfolding duplicates
  duplicates_complete zero j lt d = absurd (omega arith)
  duplicates_complete (suc n) j lt d = elim (Bool-cases (done_at p n || not (inflight_at p n))) [
    | inl free ↦
        rw free
          (before n j (duplicates_complete n) lt d (λ e. ground (arith, e.not_done, e.in_flight)))
    | inr taken ↦ elim (Bool-cases (has_piece bits n)) [
      | inr lacks ↦
          rw (taken, lacks) (before n j (duplicates_complete n) lt d (λ e. cc (lacks, e.held)))
      | inl holds ↦ rw (taken, holds) (concat-ne-nil n (duplicates p bits n))
    ]
  ]

  all_taken_sound :
      (n : ℕ)
      → all_taken p n ≡ true
      → (j : ℕ) → j < n
      → done_at p j ≡ false
      → inflight_at p j ≡ true
  unfolding all_taken
  all_taken_sound zero h = λ j lt. absurd (omega arith)
  all_taken_sound (suc n) h =
      below_suc (λ j. done_at p j ≡ false → inflight_at p j ≡ true) n
        (all_taken_sound n (ground arith)) (λ d. ground arith)

  -- What a successful pick is: either the rarest eligible piece, now in flight, or a duplicate of
  -- a piece in flight, in the first pick of the endgame.
  pub data IsPick : Picker → ℕ → Type 0 where
    rarest :
        {c : ℕ}
        → IsEligible p bits c
        → ((j : ℕ) → j < p.num_pieces → IsEligible p bits j → frequency_at p c ≤ℤ frequency_at p j)
        → IsPick (record p { inflight = set p.inflight c true }) c
    duplicate :
        {c : ℕ}
        → p.endgame ≡ false
        → ((j : ℕ) → j < p.num_pieces → done_at p j ≡ false → inflight_at p j ≡ true)
        → IsDuplicate p bits c
        → IsPick (record p { endgame = true }) c

-- `shouldEnterEndgame` holds only if every piece that is not done is in flight.
enter-taken :
    (p : Picker) (j : ℕ)
    → should_enter_endgame p ≡ true
    → j < p.num_pieces
    → done_at p j ≡ false
    → inflight_at p j ≡ true
unfolding should_enter_endgame
enter-taken p j h = all_taken_sound p [] p.num_pieces (ground arith) j

-- What `Pick` returns with the picker that it leaves: a pick, or nothing, and then no piece is
-- eligible for this peer, not even in the endgame if that has begun.
abbrev pub IsOutcome : Picker → Bytes → Picker × Option ℕ → Type 0
IsOutcome p bits (q, some c) = (c < p.num_pieces) × IsPick p bits q c
IsOutcome p bits (q, none) =
    ((q ≡ p) ⊎ (q ≡ record p { endgame = true }))
    × ((j : ℕ) → j < p.num_pieces → ¬ IsEligible q bits j)

module _ (rand : ℕ → ℕ) (bits : Bytes) (p : Picker) (random : IsRandom rand) where
  enter-IsOutcome :
      (o : Option ℕ)
      → p.endgame ≡ false
      → should_enter_endgame p ≡ true
      → draw rand (duplicates (record p { endgame = true }) bits p.num_pieces) ≡ o
      → IsOutcome p bits (record p { endgame = true }, o)
  enter-IsOutcome none off enter h =
      let entered = record p { endgame = true } in
      (
        inr refl,
        λ j lt e.
            duplicates_complete entered bits p.num_pieces j lt
              (record {
                not_done = e.not_done;
                in_flight = enter-taken p j enter lt e.not_done;
                held = e.held;
              })
              (draw-ne-none rand _ h),
      )
  enter-IsOutcome (some c) off enter h =
      let entered = record p { endgame = true } in
      let (lt, d) =
        draw-All rand (λ c. (c < p.num_pieces) × IsDuplicate entered bits c)
          (duplicates entered bits p.num_pieces) random (duplicates_sound entered bits p.num_pieces)
          h in
      let here : IsDuplicate p bits c = record {
        not_done = d.not_done;
        in_flight = d.in_flight;
        held = d.held;
      } in
      (lt, duplicate off (λ j. enter-taken p j enter) here)

  take-IsOutcome :
      (best : ℤ) (cs : List ℕ) (o : Option ℕ)
      → IsRarest p bits p.num_pieces (best, cs)
      → cs ≢ []
      → draw rand cs ≡ o
      → IsOutcome p bits (take_piece p o)
  take-IsOutcome best cs none r ne h = absurd (ne (draw-ne-none rand cs h))
  take-IsOutcome best cs (some c) r ne h =
      let (e, lt, le) =
        draw-All rand (λ c. IsEligible p bits c × (c < p.num_pieces) × (frequency_at p c ≤ℤ best))
          cs random r.eligible h in
      (lt, rarest e (λ j below e'. omega (arith, le, r.least j below e')))

  pick_from-IsOutcome :
      (best : ℤ) (cs : List ℕ)
      → IsRarest p bits p.num_pieces (best, cs)
      → IsOutcome p bits (pick_from rand bits p cs)
  unfolding pick_from pick_endgame
  pick_from-IsOutcome best [] r = elim (Bool-cases (not p.endgame && should_enter_endgame p)) [
    | inl enter ↦ rw enter (enter-IsOutcome _ (ground arith) (ground arith) refl)
    | inr stay ↦ rw stay (inl refl, λ j lt e. r.found j lt e refl)
  ]
  pick_from-IsOutcome best (c ∷ cs) r =
      take-IsOutcome best (c ∷ cs) (draw rand (c ∷ cs)) r (cons-ne-nil c cs) refl

  -- A pick succeeds with the rarest piece that this peer can serve and that is free, and marks it
  -- as in flight; or, when all that is left is in flight for the first time, it starts the endgame
  -- and returns a duplicate; or it returns nothing, and no piece is eligible for the peer.
  pub pick-IsOutcome :
      ((j : ℕ) → frequency_at p j ≤ℤ pos (2 ^ 63 - 1)) → IsOutcome p bits (pick rand bits p)
  unfolding pick
  pick-IsOutcome bound = pick_from-IsOutcome _ _ (scan-IsRarest p bits p.num_pieces bound)
