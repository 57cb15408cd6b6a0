-- ===== src/Tracker/Tiered/Cascade.antt =====
-- Which tracker an announce ends at, and what becomes of the tiers.
use project_based_learning.Base.{
  ℕ, ◌+◌, ◌≡◌, ◌⊎◌, inl, inr, refl, ap, sym, ◌∙◌, Option, Option-cases, none, some, List, [], ◌∷◌,
  ◌++◌, arith, if◌then◌else◌, length, length-append, take-append, drop-append_cons, get_or, set,
  Bytes,
}
use project_based_learning.Tracker.Tiered.{
  Tiers, to_front, promote, response, all_failed, no_trackers, try_tier, try_tiers, asked_none,
  announce,
}

get_or-middle {ℓ} :
    {A : Type ℓ} (xs ys : List A) (x d : A) → get_or (xs ++ x ∷ ys) (length xs) d ≡ x
get_or-middle [] ys x d = refl
get_or-middle (a ∷ xs) ys x d = get_or-middle xs ys x d

set-middle {ℓ} :
    {A : Type ℓ} (xs ys : List A) (x y : A) → set (xs ++ x ∷ ys) (length xs) y ≡ xs ++ y ∷ ys
set-middle [] ys x y = refl
set-middle (a ∷ xs) ys x y = ap (λ r. a ∷ r) (set-middle xs ys x y)

to_front-middle :
    (xs ys : List Bytes) (url : Bytes) → to_front (length xs) (xs ++ url ∷ ys) ≡ url ∷ (xs ++ ys)
to_front-middle xs ys url =
    rw (get_or-middle xs ys url [], take-append xs (url ∷ ys), drop-append_cons xs url ys)

promote-middle :
    (above below : Tiers) (before after : List Bytes) (url : Bytes)
    → promote (length above) (length before) (above ++ (before ++ url ∷ after) ∷ below)
      ≡ above ++ (url ∷ (before ++ after)) ∷ below
unfolding promote
promote-middle above below [] after url = ground arith
promote-middle above below (a ∷ before) after url =
    rw
      (
        get_or-middle above below (a ∷ before ++ url ∷ after) [],
        to_front-middle (a ∷ before) after url,
        set-middle above below (a ∷ before ++ url ∷ after) (url ∷ (a ∷ before ++ after)),
      )
      (ground (
        arith,
        length-append above ((a ∷ before ++ url ∷ after) ∷ below),
        length-append (a ∷ before) (url ∷ after),
      ))

module _ {R : Type 0} (fetch : ℕ → ℕ → Bytes → Option R) where
  -- The trackers of a tier, and those of tiers, fail from an index on.
  abbrev pub TierFails : ℕ → ℕ → List Bytes → Type 0
  TierFails t i [] = Unit
  TierFails t i (url ∷ tier) = (fetch t i url ≡ none) × TierFails t (i + 1) tier

  abbrev pub TiersFail : ℕ → Tiers → Type 0
  TiersFail t [] = Unit
  TiersFail t (tier ∷ tiers) = TierFails t 0 tier × TiersFail (t + 1) tiers

  -- The first tracker of a tier that answers.
  pub record Found (t i : ℕ) (tier : List Bytes) : Type 0 where
    pub before : List Bytes
    pub url : Bytes
    pub after : List Bytes
    pub answer : R
    pub tier_eq : tier ≡ before ++ url ∷ after
    pub place : ℕ
    pub place_eq : place ≡ i + length before
    pub fails : TierFails t i before
    pub answers : fetch t place url ≡ some answer
    pub result : try_tier fetch t i tier ≡ some (place, answer)

  answered_here :
      (t i : ℕ) (url : Bytes) (tier : List Bytes) (r : R)
      → fetch t i url ≡ some r
      → Found t i (url ∷ tier)
  unfolding try_tier
  answered_here t i url tier r e = record {
    before = [];
    url = url;
    after = tier;
    answer = r;
    tier_eq = refl;
    place = i;
    place_eq = omega arith;
    fails = tt;
    answers = e;
    result = rw e refl;
  }

  answered_later :
      (t i : ℕ) (url : Bytes) (tier : List Bytes)
      → fetch t i url ≡ none
      → Found t (i + 1) tier
      → Found t i (url ∷ tier)
  unfolding try_tier
  answered_later t i url tier e f = record {
    place = f.place;
    place_eq = omega (arith, f.place_eq);
    before = url ∷ f.before;
    url = f.url;
    after = f.after;
    answer = f.answer;
    tier_eq = ap (λ us. url ∷ us) f.tier_eq;
    fails = (e, f.fails);
    answers = f.answers;
    result = rw e f.result;
  }

  try_tier_cases :
      (t i : ℕ) (tier : List Bytes)
      → (TierFails t i tier × (try_tier fetch t i tier ≡ none)) ⊎ Found t i tier
  unfolding try_tier
  try_tier_cases t i [] = inl (tt, refl)
  try_tier_cases t i (url ∷ tier) = elim (Option-cases (fetch t i url)) [
    | inr (r, e) ↦ inr (answered_here t i url tier r e)
    | inl e ↦ elim (try_tier_cases t (i + 1) tier) [
      | inl (fails, eq) ↦ inl ((e, fails), rw e eq)
      | inr f ↦ inr (answered_later t i url tier e f)
    ]
  ]

  -- The first tier with a tracker that answers.
  pub record FoundTier (t : ℕ) (tiers : Tiers) : Type 0 where
    pub above : Tiers
    pub tier : List Bytes
    pub below : Tiers
    pub tiers_eq : tiers ≡ above ++ tier ∷ below
    pub above_fail : TiersFail t above
    pub row : ℕ
    pub row_eq : row ≡ t + length above
    pub found : Found row 0 tier
    pub result : try_tiers fetch t tiers ≡ some (row, found.place, found.answer)

  tier_here :
      (t : ℕ) (tier : List Bytes) (tiers : Tiers) → Found t 0 tier → FoundTier t (tier ∷ tiers)
  unfolding try_tiers
  tier_here t tier tiers f = record {
    above = [];
    tier = tier;
    below = tiers;
    tiers_eq = refl;
    above_fail = tt;
    row = t;
    row_eq = omega arith;
    found = f;
    result = rw f.result refl;
  }

  tier_later :
      (t : ℕ) (tier : List Bytes) (tiers : Tiers)
      → TierFails t 0 tier
      → try_tier fetch t 0 tier ≡ none
      → FoundTier (t + 1) tiers
      → FoundTier t (tier ∷ tiers)
  unfolding try_tiers
  tier_later t tier tiers fails e f = record {
    above = tier ∷ f.above;
    tier = f.tier;
    below = f.below;
    tiers_eq = ap (λ ts. tier ∷ ts) f.tiers_eq;
    above_fail = (fails, f.above_fail);
    row = f.row;
    row_eq = omega (arith, f.row_eq);
    found = f.found;
    result = rw e f.result;
  }

  try_tiers_cases :
      (t : ℕ) (tiers : Tiers)
      → (TiersFail t tiers × (try_tiers fetch t tiers ≡ none)) ⊎ FoundTier t tiers
  unfolding try_tiers
  try_tiers_cases t [] = inl (tt, refl)
  try_tiers_cases t (tier ∷ tiers) = elim (try_tier_cases t 0 tier) [
    | inr f ↦ inr (tier_here t tier tiers f)
    | inl (fails, e) ↦ elim (try_tiers_cases (t + 1) tiers) [
      | inl (below, eq) ↦ inl ((fails, below), rw e eq)
      | inr f ↦ inr (tier_later t tier tiers fails e f)
    ]
  ]

  -- What an announce does when a tracker answers: the trackers before it in its tier, and those of
  -- the tiers above, fail, and it moves to the front of its tier.
  pub record Served (tiers : Tiers) : Type 0 where
    pub above : Tiers
    pub before : List Bytes
    pub url : Bytes
    pub after : List Bytes
    pub below : Tiers
    pub answer : R
    pub tiers_eq : tiers ≡ above ++ (before ++ url ∷ after) ∷ below
    pub above_fail : TiersFail 0 above
    pub fails : TierFails (length above) 0 before
    pub answers : fetch (length above) (length before) url ≡ some answer
    pub result :
        announce fetch tiers ≡ (response answer, above ++ (url ∷ (before ++ after)) ∷ below)

  -- If no tracker answers, an announce reports that there is none or that all failed, and leaves
  -- the tiers as they are.
  pub record Unserved (tiers : Tiers) : Type 0 where
    pub all_fail : TiersFail 0 tiers
    pub result :
        announce fetch tiers ≡ (if asked_none tiers then no_trackers else all_failed, tiers)

  served : (tiers : Tiers) → FoundTier 0 tiers → Served tiers
  unfolding announce
  served tiers f =
      let row : f.row ≡ length f.above = omega (arith, f.row_eq) in
      let place : f.found.place ≡ length f.found.before = omega (arith, f.found.place_eq) in
      record {
        above = f.above;
        before = f.found.before;
        url = f.found.url;
        after = f.found.after;
        below = f.below;
        answer = f.found.answer;
        tiers_eq = f.tiers_eq ∙ ap (λ x. f.above ++ x ∷ f.below) f.found.tier_eq;
        above_fail = f.above_fail;
        fails = rw (sym row) f.found.fails;
        answers = rw (sym row, sym place) f.found.answers;
        result = rw (
          f.result,
          row,
          place,
          f.tiers_eq,
          f.found.tier_eq,
          promote-middle f.above f.below f.found.before f.found.after f.found.url,
        );
      }

  -- An announce either finds no tracker that answers, and leaves the tiers as they are, or ends at
  -- the first tracker in order that answers, which it moves to the front of its tier; the order
  -- of the others, and the other tiers, stay.
  pub announce_cases : (tiers : Tiers) → Unserved tiers ⊎ Served tiers
  unfolding announce
  announce_cases tiers = elim (try_tiers_cases 0 tiers) [
    | inl (fails, e) ↦ inl (record { all_fail = fails; result = rw e })
    | inr f ↦ inr (served tiers f)
  ]
