-- ===== src/Tracker/Tiered.antt =====
-- Trackers in tiers (tracker/tiered.go). The exchange with one tracker is the parameter `fetch`: what
-- the tracker at a position answers, with none for an error.
pub mod Cascade
use project_based_learning.Base.{
  ℕ, zero, suc, ◌+◌, Bool, true, false, ◌||◌, Option, none, some, List, [], ◌∷◌, ◌++◌, leb, ◌==◌,
  if◌then◌else◌, length, take, drop, get_or, set, Bytes,
}

abbrev pub Tiers : Type 0
Tiers = List (List Bytes)

unfoldable pub add_tier : List Bytes → Tiers → Tiers
add_tier tier tiers = if length tier == 0 then tiers else tier ∷ tiers

-- `rand.Shuffle` is a function that may treat each tier in another way.
unfoldable pub shuffle_tiers : (ℕ → List Bytes → List Bytes) → ℕ → Tiers → Tiers
shuffle_tiers shuffle t [] = []
shuffle_tiers shuffle t (tier ∷ tiers) =
    add_tier (shuffle t tier) (shuffle_tiers shuffle (t + 1) tiers)

unfoldable pub new_tiered_announcer : (ℕ → List Bytes → List Bytes) → Tiers → Bytes → Tiers
new_tiered_announcer shuffle (tier ∷ tiers) announce = shuffle_tiers shuffle 0 (tier ∷ tiers)
new_tiered_announcer shuffle [] [] = []
new_tiered_announcer shuffle [] (a ∷ url) = ((a ∷ url) ∷ []) ∷ []

-- The tracker at an index moves to the front.
abbrev pub to_front : ℕ → List Bytes → List Bytes
to_front i tier = get_or tier i [] ∷ (take i tier ++ drop (i + 1) tier)

unfoldable pub promote : ℕ → ℕ → Tiers → Tiers
promote t i tiers =
    if leb (length tiers) t || i == 0
    then tiers
    else if leb (length (get_or tiers t [])) i
    then tiers
    else set tiers t (to_front i (get_or tiers t []))

pub data Answer (R : Type 0) : Type 0 where
  response : R → Answer R
  all_failed no_trackers : Answer R

-- `lastErr` is nil only if no tracker was asked.
abbrev pub asked_none : Tiers → Bool
asked_none [] = true
asked_none ([] ∷ tiers) = asked_none tiers
asked_none ((url ∷ tier) ∷ tiers) = false

module _ {R : Type 0} (fetch : ℕ → ℕ → Bytes → Option R) where
  abbrev pub or_later : ℕ → Option R → Option (ℕ × R) → Option (ℕ × R)
  or_later i (some r) later = some (i, r)
  or_later i none later = later

  -- The loop over one tier, from the index `i` on.
  unfoldable pub try_tier : ℕ → ℕ → List Bytes → Option (ℕ × R)
  try_tier t i [] = none
  try_tier t i (url ∷ tier) = or_later i (fetch t i url) (try_tier t (i + 1) tier)

  abbrev pub or_below : ℕ → Option (ℕ × R) → Option (ℕ × ℕ × R) → Option (ℕ × ℕ × R)
  or_below t (some (i, r)) below = some (t, i, r)
  or_below t none below = below

  -- The loop over the tiers, from the index `t` on.
  unfoldable pub try_tiers : ℕ → Tiers → Option (ℕ × ℕ × R)
  try_tiers t [] = none
  try_tiers t (tier ∷ tiers) = or_below t (try_tier t 0 tier) (try_tiers (t + 1) tiers)

  abbrev pub conclude : Tiers → Option (ℕ × ℕ × R) → Answer R × Tiers
  conclude tiers (some (t, i, r)) = (response r, promote t i tiers)
  conclude tiers none = (if asked_none tiers then no_trackers else all_failed, tiers)

  unfoldable pub announce : Tiers → Answer R × Tiers
  announce tiers = conclude tiers (try_tiers 0 tiers)
