-- ===== src/Base/Distinct.antt =====
-- Lists of values with keys that differ.
use Prim.Native.Nat.{suc, ◌≤◌}
use mathlib.Core.Path.{◌≡◌}
use mathlib.Core.Logic.{inl, inr}
use mathlib.Core.Bool.{Bool, true, false, ◌||◌}
use mathlib.Core.List.{List, [], ◌∷◌}
use native.Mathlib.Omega.{arith}
use project_based_learning.Base.Tests.{if◌then◌else◌, Bool-cases}
use project_based_learning.Base.Lists.{length}
use project_based_learning.Base.Slices.{Bytes, All}
use project_based_learning.Base.Wire.{bytes_eq, bytes_eq→eq, bytes_eq_sym}

abbrev pub member : Bytes → List Bytes → Bool
member k [] = false
member k (j ∷ js) = bytes_eq j k || member k js

-- The list without the first occurrence of a key.
abbrev without : Bytes → List Bytes → List Bytes
without k [] = []
without k (j ∷ js) = let rest = without k js in if bytes_eq j k then js else j ∷ rest

length-without :
    (k : Bytes) (ks : List Bytes) → member k ks ≡ true → suc (length (without k ks)) ≡ length ks
length-without k [] h = cc
length-without k (j ∷ js) h = ground (arith, length-without k js)

member-without :
    (k m : Bytes) (ks : List Bytes)
    → bytes_eq m k ≡ false
    → member m ks ≡ true
    → member m (without k ks) ≡ true
member-without k m [] ne h = h
member-without k m (j ∷ js) ne h = elim (Bool-cases (bytes_eq j k)) [
  | inl same ↦
      let e : bytes_eq j m ≡ false = rw (bytes_eq→eq j k same) (bytes_eq_sym m k ne) in
      rw same (ground (arith, h, e))
  | inr other ↦ rw other (ground (arith, member-without k m js, h, ne))
]

module _ {ℓ} {A : Type ℓ} (key : A → Bytes) where
  abbrev pub Lacks : Bytes → List A → Type 0
  Lacks k = All (λ a. bytes_eq (key a) k ≡ false)

  abbrev pub IsDistinct : List A → Type 0
  IsDistinct [] = Unit
  IsDistinct (a ∷ xs) = Lacks (key a) xs × IsDistinct xs

  abbrev pub Inside : List Bytes → List A → Type 0
  Inside ks = All (λ a. member (key a) ks ≡ true)

  Inside-without :
      (k : Bytes) (xs : List A) (ks : List Bytes)
      → Lacks k xs
      → Inside ks xs
      → Inside (without k ks) xs
  Inside-without k [] ks l h = tt
  Inside-without k (a ∷ xs) ks l h =
      (member-without k (key a) ks l.0 h.0, Inside-without k xs ks l.1 h.1)

  -- Values with distinct keys among some are no more than these.
  pub length-distinct :
      (xs : List A) (ks : List Bytes) → IsDistinct xs → Inside ks xs → length xs ≤ length ks
  length-distinct [] ks d h = omega arith
  length-distinct (a ∷ xs) ks d h = omega (
    arith,
    length-without (key a) ks h.0,
    length-distinct xs (without (key a) ks) d.1 (Inside-without (key a) xs ks d.0 h.1),
  )
