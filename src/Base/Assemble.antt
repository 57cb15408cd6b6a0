-- ===== src/Base/Assemble.antt =====
-- Data that arrives in blocks of 16 KiB, in any order, and is copied to its place in a buffer.
use Prim.Native.Nat.{ℕ, zero, suc, ◌+◌, ◌-◌, ◌*◌, ◌/◌, ◌≤◌, ◌<◌, min}
use native.Mathlib.Omega.{arith}
use mathlib.Core.Path.{◌≡◌, refl, ap, ◌∙◌}
use mathlib.Core.Logic.{◌≢◌, inl, inr}
use mathlib.Core.Bool.{false}
use mathlib.Core.List.{List, [], ◌∷◌}
use project_based_learning.Base.Tests.{ltb, ◌==◌, Bool-cases}
use project_based_learning.Base.Lists.{length, length-take, length-drop, take, drop, get_or}
use project_based_learning.Base.Slices.{Bytes, contains}

abbrev pub block_size : ℕ
block_size = 16384

-- `copy(b, c)` for slices.
unfoldable pub overlay : Bytes → Bytes → Bytes
overlay [] b = b
overlay (x ∷ c) [] = []
overlay (x ∷ c) (y ∷ b) = x ∷ overlay c b

-- `copy(b[off:], c)` for an offset inside.
unfoldable pub copy_at : ℕ → Bytes → Bytes → Bytes
unfolding overlay
copy_at zero c b = overlay c b
copy_at (suc off) c [] = []
copy_at (suc off) c (y ∷ b) = y ∷ copy_at off c b

-- The block at an index; the last one may be shorter.
unfoldable pub block : ℕ → Bytes → Bytes
block i d = take block_size (drop (i * block_size) d)

pub length-copy_at : (off : ℕ) (c b : Bytes) → length (copy_at off c b) ≡ length b
unfolding copy_at overlay
length-copy_at zero [] b = refl
length-copy_at zero (x ∷ c) [] = refl
length-copy_at zero (x ∷ c) (y ∷ b) = ap suc (length-copy_at zero c b)
length-copy_at (suc off) c [] = refl
length-copy_at (suc off) c (y ∷ b) = ap suc (length-copy_at off c b)

get_or-copy_inside :
    (off : ℕ) (c b : Bytes) (j : ℕ)
    → off + j < length b
    → j < length c
    → get_or (copy_at off c b) (off + j) 0 ≡ get_or c j 0
unfolding copy_at overlay
get_or-copy_inside off [] b j h h' = absurd (omega arith)
get_or-copy_inside off (x ∷ c) [] j h h' = absurd (omega arith)
get_or-copy_inside zero (x ∷ c) (y ∷ b) zero h h' = refl
get_or-copy_inside zero (x ∷ c) (y ∷ b) (suc j) h h' =
    let e : 0 + suc j ≡ suc (0 + j) = omega arith in
    rw e (get_or-copy_inside zero c b j (omega arith) (omega arith))
get_or-copy_inside (suc off) (x ∷ c) (y ∷ b) j h h' =
    let e : suc off + j ≡ suc (off + j) = omega arith in
    rw e (get_or-copy_inside off (x ∷ c) b j (omega arith) h')

get_or-copy_before :
    (off : ℕ) (c b : Bytes) (j : ℕ) → j < off → get_or (copy_at off c b) j 0 ≡ get_or b j 0
unfolding copy_at
get_or-copy_before zero c b j h = absurd (omega arith)
get_or-copy_before (suc off) c [] j h = refl
get_or-copy_before (suc off) c (y ∷ b) zero h = refl
get_or-copy_before (suc off) c (y ∷ b) (suc j) h = get_or-copy_before off c b j (omega arith)

get_or-copy_after :
    (off : ℕ) (c b : Bytes) (j : ℕ)
    → off + length c ≤ j
    → get_or (copy_at off c b) j 0 ≡ get_or b j 0
unfolding copy_at overlay
get_or-copy_after zero [] b j h = refl
get_or-copy_after zero (x ∷ c) [] j h = refl
get_or-copy_after zero (x ∷ c) (y ∷ b) zero h = absurd (omega arith)
get_or-copy_after zero (x ∷ c) (y ∷ b) (suc j) h = get_or-copy_after zero c b j (omega arith)
get_or-copy_after (suc off) c [] j h = refl
get_or-copy_after (suc off) c (y ∷ b) zero h = absurd (omega arith)
get_or-copy_after (suc off) c (y ∷ b) (suc j) h = get_or-copy_after off c b j (omega arith)

get_or-drop : (n j : ℕ) (d : Bytes) → get_or (drop n d) j 0 ≡ get_or d (n + j) 0
get_or-drop zero j d = let e : 0 + j ≡ j = omega arith in rw e refl
get_or-drop (suc n) j [] = refl
get_or-drop (suc n) j (a ∷ d) =
    let e : suc n + j ≡ suc (n + j) = omega arith in rw e (get_or-drop n j d)

get_or-take : (n j : ℕ) (d : Bytes) → j < n → get_or (take n d) j 0 ≡ get_or d j 0
get_or-take zero j d h = absurd (omega arith)
get_or-take (suc n) j [] h = refl
get_or-take (suc n) zero (a ∷ d) h = refl
get_or-take (suc n) (suc j) (a ∷ d) h = get_or-take n j d (omega arith)

pub length-block :
    (i : ℕ) (d : Bytes) → length (block i d) ≡ min block_size (length d - i * block_size)
unfolding block
length-block i d =
    let dropped = length-drop (i * block_size) d in
    let taken = length-take block_size (drop (i * block_size) d) in omega arith

get_or-block :
    (i k : ℕ) (d : Bytes)
    → k < block_size
    → get_or (block i d) k 0 ≡ get_or d (i * block_size + k) 0
unfolding block
get_or-block i k d h =
    get_or-take block_size k (drop (i * block_size) d) h ∙ get_or-drop (i * block_size) k d

-- Two byte strings of one length that agree at each index.
pub bytes-ext :
    (s t : Bytes)
    → length s ≡ length t
    → ((j : ℕ) → j < length t → get_or s j 0 ≡ get_or t j 0)
    → s ≡ t
bytes-ext [] [] e h = refl
bytes-ext [] (b ∷ t) e h = absurd (omega arith)
bytes-ext (a ∷ s) [] e h = absurd (omega arith)
bytes-ext (a ∷ s) (b ∷ t) e h =
    let head : a ≡ b = h 0 (omega arith) in
    let tail = bytes-ext s t (omega arith) (λ j less. h (suc j) (omega arith)) in
    λ k. head k ∷ tail k

-- The buffer `b` has `d` outside of the blocks that are left.
abbrev pub IsMissing : Bytes → List ℕ → Bytes → Type 0
IsMissing d left b =
    (length b ≡ length d)
    × ((j : ℕ)
        → j < length d
        → contains (j / block_size) left ≡ false
        → get_or b j 0 ≡ get_or d j 0)

pub IsMissing-none : (d b : Bytes) → IsMissing d [] b → b ≡ d
IsMissing-none d b (size, same) = bytes-ext b d size (λ j less. same j less refl)

-- A block in its place is missing no more.
pub IsMissing-block :
    (d : Bytes) (i : ℕ) (left : List ℕ) (b : Bytes)
    → IsMissing d (i ∷ left) b
    → IsMissing d left (copy_at (i * block_size) (block i d) b)
IsMissing-block d i left b (size, same) =
    let c = block i d in
    let c_length = length-block i d in
    (
      length-copy_at (i * block_size) c b ∙ size,
      λ j less out.
          let k = j - i * block_size in
          elim (Bool-cases (i == j / block_size)) [
            | inl here ↦
                let at_block : i ≡ j / block_size = ground arith in
                let place : i * block_size + k ≡ j = omega arith in
                rw (← place) (
                  get_or-copy_inside (i * block_size) c b k (omega arith) (omega arith)
                  ∙ get_or-block i k d (omega arith))
            | inr there ↦
                let ne : i ≢ j / block_size = ground arith in
                let before = same j less (rw there out) in
                elim (Bool-cases (ltb j (i * block_size))) [
                  | inl low ↦ get_or-copy_before (i * block_size) c b j (ground arith) ∙ before
                  | inr high ↦
                      let above : i * block_size ≤ j = ground arith in
                      get_or-copy_after (i * block_size) c b j (omega arith) ∙ before
                ]
          ],
    )
