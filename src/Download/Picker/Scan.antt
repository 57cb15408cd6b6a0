-- ===== src/Download/Picker/Scan.antt =====
-- What the loops of `Pick` and `pickEndgame` collect.
use project_based_learning.Base.{
  ℕ, zero, suc, ◌-◌, ◌<◌, ◌^◌, ◌≡◌, ◌≢◌, ◌⊎◌, inl, inr, refl, sym, true, false, not, ◌&&◌, List, [],
  ◌∷◌, ◌++◌, arith, All, All-append, Bytes, ℤ, pos, ltb_ℤ, eq_ℤ, ◌≤ℤ◌, Bool-cases,
}
use mathlib.Core.Path.{subst}
use mathlib.Core.List.{cons-ne-nil, concat-ne-nil}
use project_based_learning.Download.Bitfield.{has_piece}
use project_based_learning.Download.Picker.{
  Picker, done_at, inflight_at, frequency_at, Best, consider, scan,
}

-- A piece that may be given to a peer with these bits: not done, held by the peer, and not in
-- flight unless the picker is in its endgame.
pub record IsEligible (p : Picker) (bits : Bytes) (i : ℕ) : Type 0 where
  pub not_done : done_at p i ≡ false
  pub available : (inflight_at p i ≡ false) ⊎ (p.endgame ≡ true)
  pub held : has_piece bits i ≡ true

-- The candidates below `n` are the rarest of the eligible pieces below `n`.
pub record IsRarest (p : Picker) (bits : Bytes) (n : ℕ) (b : Best) : Type 0 where
  pub eligible : All (λ c. IsEligible p bits c × (c < n) × (frequency_at p c ≤ℤ b.0)) b.1
  pub least : (j : ℕ) → j < n → IsEligible p bits j → b.0 ≤ℤ frequency_at p j
  pub found : (j : ℕ) → j < n → IsEligible p bits j → b.1 ≢ []
  pub start : b.1 ≡ [] → b.0 ≡ pos (2 ^ 63 - 1)

-- From all numbers below `n`, and `n`, to all below `n + 1`.
pub below_suc {ℓ} :
    (P : ℕ → Type ℓ) (n : ℕ) → ((j : ℕ) → j < n → P j) → P n → (j : ℕ) → j < suc n → P j
below_suc P n h last j lt = elim (split_suc j n lt) [
  | inl less ↦ h j less
  | inr same ↦ subst P (sym same) last
]
  where
    split_suc : (j n : ℕ) → j < suc n → (j < n) ⊎ (j ≡ n)
    split_suc j n lt = grind arith

module _ (p : Picker) (bits : Bytes) where
  All-wider :
      (n : ℕ) (best best' : ℤ) (cs : List ℕ)
      → best ≤ℤ best'
      → All (λ c. IsEligible p bits c × (c < n) × (frequency_at p c ≤ℤ best)) cs
      → All (λ c. IsEligible p bits c × (c < suc n) × (frequency_at p c ≤ℤ best')) cs
  All-wider n best best' [] le h = tt
  All-wider n best best' (c ∷ cs) le h =
      ((h.0.0, omega arith, omega (arith, h.0.2)), All-wider n best best' cs le h.1)

  -- At a piece that is not eligible, the loop keeps what it has.
  skip-IsRarest :
      (n : ℕ) (b : Best) → ¬ IsEligible p bits n → IsRarest p bits n b → IsRarest p bits (suc n) b
  skip-IsRarest n (best, cs) no_piece r = record {
    eligible = All-wider n best best cs (omega arith) r.eligible;
    least =
        below_suc (λ j. IsEligible p bits j → best ≤ℤ frequency_at p j) n r.least
          (λ e. absurd (no_piece e));
    found = below_suc (λ j. IsEligible p bits j → cs ≢ []) n r.found (λ e. absurd (no_piece e));
    start = r.start;
  }

  -- A rarer piece replaces the candidates.
  rarer-IsRarest :
      (n : ℕ) (b : Best)
      → IsEligible p bits n
      → frequency_at p n ≤ℤ b.0
      → IsRarest p bits n b
      → IsRarest p bits (suc n) (frequency_at p n, n ∷ [])
  rarer-IsRarest n (best, cs) e le r = record {
    eligible = ((e, omega arith, omega arith), tt);
    least =
        below_suc (λ j. IsEligible p bits j → frequency_at p n ≤ℤ frequency_at p j) n
          (λ j lt e'. omega (arith, r.least j lt e')) (λ _. omega arith);
    found = λ j lt e'. cons-ne-nil n [];
    start = λ nil. absurd (cons-ne-nil n [] nil);
  }

  -- A piece that is as rare joins them.
  equal-IsRarest :
      (n : ℕ) (b : Best)
      → IsEligible p bits n
      → frequency_at p n ≤ℤ b.0
      → b.0 ≤ℤ frequency_at p n
      → IsRarest p bits n b
      → IsRarest p bits (suc n) (b.0, b.1 ++ n ∷ [])
  equal-IsRarest n (best, cs) e le ge r = record {
    eligible =
        All-append _ cs (n ∷ []) (All-wider n best best cs (omega arith) r.eligible)
          ((e, omega arith, le), tt);
    least = below_suc (λ j. IsEligible p bits j → best ≤ℤ frequency_at p j) n r.least (λ _. ge);
    found = λ j lt e'. concat-ne-nil n cs;
    start = λ nil. absurd (concat-ne-nil n cs nil);
  }

  -- A piece that is more frequent changes nothing: there is a candidate already.
  common-IsRarest :
      (n : ℕ) (b : Best)
      → frequency_at p n ≤ℤ pos (2 ^ 63 - 1)
      → ¬ (frequency_at p n ≤ℤ b.0)
      → IsRarest p bits n b
      → IsRarest p bits (suc n) b
  common-IsRarest n (best, cs) bound more r = record {
    eligible = All-wider n best best cs (omega arith) r.eligible;
    least =
        below_suc (λ j. IsEligible p bits j → best ≤ℤ frequency_at p j) n r.least
          (λ _. omega (arith, more));
    found =
        below_suc (λ j. IsEligible p bits j → cs ≢ []) n r.found
          (λ _ nil. more (rw (r.start nil) bound));
    start = r.start;
  }

  consider-IsRarest :
      (n : ℕ) (b : Best)
      → frequency_at p n ≤ℤ pos (2 ^ 63 - 1)
      → IsRarest p bits n b
      → IsRarest p bits (suc n) (consider p bits n b)
  unfolding consider
  consider-IsRarest n (best, cs) bound r = elim (Bool-cases (done_at p n)) [
    | inl d ↦ rw d (skip-IsRarest n (best, cs) (λ e. cc (d, e.not_done)) r)
    | inr d ↦ elim (Bool-cases (inflight_at p n && not p.endgame)) [
      | inl f ↦ rw (d, f) (skip-IsRarest n (best, cs) (λ e. ground (arith, f, e.available)) r)
      | inr f ↦ elim (Bool-cases (has_piece bits n)) [
        | inr h ↦ rw (d, f, h) (skip-IsRarest n (best, cs) (λ e. cc (h, e.held)) r)
        | inl h ↦
            let e : IsEligible p bits n = record { not_done = d; available = free f; held = h } in
            elim (Bool-cases (ltb_ℤ (frequency_at p n) best)) [
              | inl lt ↦ rw (d, f, h, lt) (rarer-IsRarest n (best, cs) e (ground arith) r)
              | inr ge ↦ elim (Bool-cases (eq_ℤ (frequency_at p n) best)) [
                | inl eq ↦
                    rw (d, f, h, ge, eq)
                      (equal-IsRarest n (best, cs) e (ground arith) (ground arith) r)
                | inr ne ↦
                    rw (d, f, h, ge, ne) (common-IsRarest n (best, cs) bound (λ le. ground arith) r)
              ]
            ]
      ]
    ]
  ]
    where
      free :
          (inflight_at p n && not p.endgame) ≡ false
          → (inflight_at p n ≡ false) ⊎ (p.endgame ≡ true)
      free f = ground arith

  -- The loop of `Pick` collects the rarest of the eligible pieces.
  pub scan-IsRarest :
      (n : ℕ) → ((j : ℕ) → frequency_at p j ≤ℤ pos (2 ^ 63 - 1)) → IsRarest p bits n (scan p bits n)
  unfolding scan
  scan-IsRarest zero bound = record {
    eligible = tt;
    least = λ j lt e. absurd (omega arith);
    found = λ j lt e. absurd (omega arith);
    start = λ _. refl;
  }
  scan-IsRarest (suc n) bound =
      consider-IsRarest n (scan p bits n) (bound n) (scan-IsRarest n bound)
