-- ===== src/Base/Assoc.antt =====
-- Go maps with byte strings as keys: the list of their entries, each key once.
use mathlib.Core.Path.{◌≡◌, refl, sym, ◌∙◌, subst}
use mathlib.Core.Logic.{inl, inr}
use mathlib.Core.Bool.{Bool, true, false}
use mathlib.Core.Option.{Option, none, some}
use mathlib.Core.List.{List, [], ◌∷◌}
use native.Mathlib.Omega.{arith}
use project_based_learning.Base.Tests.{if◌then◌else◌, Bool-cases}
use project_based_learning.Base.Slices.{Bytes, All}
use project_based_learning.Base.Wire.{bytes_eq, bytes_eq→eq, bytes_eq_sym}

module _ {ℓ} {V : Type ℓ} where
  unfoldable pub get : Bytes → List (Bytes × V) → Option V
  get k [] = none
  get k ((j, v) ∷ m) = if bytes_eq j k then some v else get k m

  unfoldable pub put : Bytes → V → List (Bytes × V) → List (Bytes × V)
  put k v [] = (k, v) ∷ []
  put k v ((j, w) ∷ m) = if bytes_eq j k then (j, v) ∷ m else (j, w) ∷ put k v m

  unfoldable pub delete : Bytes → List (Bytes × V) → List (Bytes × V)
  delete k [] = []
  delete k ((j, w) ∷ m) = if bytes_eq j k then delete k m else (j, w) ∷ delete k m

  abbrev pub has : Bytes → List (Bytes × V) → Bool
  has k [] = false
  has k ((j, w) ∷ m) = if bytes_eq j k then true else has k m

ne_other : (j k t : Bytes) → bytes_eq j k ≡ false → bytes_eq j t ≡ true → bytes_eq k t ≡ false
ne_other j k t ne here = rw (bytes_eq→eq j t here) at (bytes_eq_sym j k ne)

module _ {ℓ} {V : Type ℓ} where
  pub get-put :
      (k : Bytes) (v : V) (m : List (Bytes × V)) (t : Bytes)
      → get t (put k v m) ≡ (if bytes_eq k t then some v else get t m)
  unfolding get put
  get-put k v [] t = refl
  get-put k v ((j, w) ∷ m) t = elim (Bool-cases (bytes_eq j k)) [
    | inl same ↦ rw (same, bytes_eq→eq j k same) (ground arith)
    | inr other ↦ elim (Bool-cases (bytes_eq j t)) [
      | inl here ↦ rw (other, here, ne_other j k t other here)
      | inr there ↦ rw (other, there) (get-put k v m t)
    ]
  ]

  pub has-put :
      (k : Bytes) (v : V) (m : List (Bytes × V)) (t : Bytes)
      → has t (put k v m) ≡ (if bytes_eq k t then true else has t m)
  unfolding put
  has-put k v [] t = refl
  has-put k v ((j, w) ∷ m) t = elim (Bool-cases (bytes_eq j k)) [
    | inl same ↦ rw (same, bytes_eq→eq j k same) (ground arith)
    | inr other ↦ elim (Bool-cases (bytes_eq j t)) [
      | inl here ↦ rw (other, here, ne_other j k t other here)
      | inr there ↦ rw (other, there) (has-put k v m t)
    ]
  ]

  pub get-delete :
      (k : Bytes) (m : List (Bytes × V)) (t : Bytes)
      → get t (delete k m) ≡ (if bytes_eq k t then none else get t m)
  unfolding get delete
  get-delete k [] t = ground arith
  get-delete k ((j, w) ∷ m) t = elim (Bool-cases (bytes_eq j k)) [
    | inl same ↦ rw (same, bytes_eq→eq j k same) (get-delete k m t ∙ ground arith)
    | inr other ↦ elim (Bool-cases (bytes_eq j t)) [
      | inl here ↦ rw (other, here, ne_other j k t other here)
      | inr there ↦ rw (other, there) (get-delete k m t)
    ]
  ]

  pub has-delete :
      (k : Bytes) (m : List (Bytes × V)) (t : Bytes)
      → has t (delete k m) ≡ (if bytes_eq k t then false else has t m)
  unfolding delete
  has-delete k [] t = ground arith
  has-delete k ((j, w) ∷ m) t = elim (Bool-cases (bytes_eq j k)) [
    | inl same ↦ rw (same, bytes_eq→eq j k same) (ground (arith, has-delete k m t))
    | inr other ↦ elim (Bool-cases (bytes_eq j t)) [
      | inl here ↦ rw (other, here, ne_other j k t other here)
      | inr there ↦ rw (other, there) (has-delete k m t)
    ]
  ]

-- What holds of all entries is kept by a write that has it, and by a deletion.
module _ {ℓ κ} {V : Type ℓ} (P : Bytes × V → Type κ) where
  pub All-put : (k : Bytes) (v : V) (m : List (Bytes × V)) → P (k, v) → All P m → All P (put k v m)
  unfolding put
  All-put k v [] h hm = (h, tt)
  All-put k v ((j, w) ∷ m) h hm = elim (Bool-cases (bytes_eq j k)) [
    | inl same ↦ rw same (subst (λ u. P (u, v)) (sym (bytes_eq→eq j k same)) h, hm.1)
    | inr other ↦ rw other (hm.0, All-put k v m h hm.1)
  ]

  pub All-delete : (k : Bytes) (m : List (Bytes × V)) → All P m → All P (delete k m)
  unfolding delete
  All-delete k [] hm = tt
  All-delete k ((j, w) ∷ m) hm = elim (Bool-cases (bytes_eq j k)) [
    | inl same ↦ rw same (All-delete k m hm.1)
    | inr other ↦ rw other (hm.0, All-delete k m hm.1)
  ]

  pub All-get : (k : Bytes) (m : List (Bytes × V)) (v : V) → All P m → get k m ≡ some v → P (k, v)
  unfolding get
  All-get k [] v hm e = cc
  All-get k ((j, w) ∷ m) v hm e = elim (Bool-cases (bytes_eq j k)) [
    | inl same ↦
        let e' : some w ≡ some v = rw same at e in
        let is : w ≡ v = cc in
        subst (λ i. P (k, i)) is (subst (λ u. P (u, w)) (bytes_eq→eq j k same) hm.0)
    | inr other ↦ All-get k m v hm.1 (rw other at e)
  ]
