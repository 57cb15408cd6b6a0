-- ===== src/Download/Pool/Keys.antt =====
-- How often an address occurs, and what the operations on the active workers do to that.
use project_based_learning.Base.{
  ℕ, suc, ◌+◌, ◌≤◌, ◌≡◌, refl, ap, true, false, some, List, [], ◌∷◌, ◌++◌, arith, if◌then◌else◌,
  length, Bytes, Bool-cases, inl, inr,
}
use project_based_learning.Base.Wire.{bytes_eq, bytes_eq→eq}
use project_based_learning.Base.Assoc.{get, put, delete, has}
use project_based_learning.Download.Pool.{ActiveWorker, snapshots}

unfoldable pub keys {ℓ} : {V : Type ℓ} → List (Bytes × V) → List Bytes
keys [] = []
keys ((k, v) ∷ m) = k ∷ keys m

unfoldable pub occurrences : Bytes → List Bytes → ℕ
occurrences a [] = 0
occurrences a (k ∷ ks) = (if bytes_eq k a then 1 else 0) + occurrences a ks

pub occurrences-append :
    (a : Bytes) (ks ls : List Bytes)
    → occurrences a (ks ++ ls) ≡ occurrences a ks + occurrences a ls
unfolding occurrences
occurrences-append a [] ls = omega arith
occurrences-append a (k ∷ ks) ls = omega (arith, occurrences-append a ks ls)

module _ {ℓ} {V : Type ℓ} where
  pub occurrences-lacking :
      (k : Bytes) (m : List (Bytes × V)) → occurrences k (keys m) ≡ 0 → has k m ≡ false
  unfolding occurrences keys
  occurrences-lacking k [] e = refl
  occurrences-lacking k ((j, v) ∷ m) e = elim (Bool-cases (bytes_eq j k)) [
    | inl here ↦ let e' = rw here at e in absurd (omega arith)
    | inr there ↦ let e' = rw there at e in rw there (occurrences-lacking k m (omega arith))
  ]

  pub get-has : (k : Bytes) (m : List (Bytes × V)) (v : V) → get k m ≡ some v → has k m ≡ true
  unfolding get
  get-has k [] v e = cc
  get-has k ((j, w) ∷ m) v e = elim (Bool-cases (bytes_eq j k)) [
    | inl here ↦ rw here refl
    | inr there ↦ rw there (get-has k m v (rw there at e))
  ]

  pub occurrences-has :
      (k : Bytes) (m : List (Bytes × V)) → has k m ≡ true → 1 ≤ occurrences k (keys m)
  unfolding occurrences keys
  occurrences-has k [] e = cc
  occurrences-has k ((j, v) ∷ m) e = elim (Bool-cases (bytes_eq j k)) [
    | inl here ↦ rw here (omega arith)
    | inr there ↦ let more = occurrences-has k m (rw there at e) in rw there (omega arith)
  ]

  pub keys-put_new :
      (k : Bytes) (v : V) (m : List (Bytes × V))
      → has k m ≡ false
      → keys (put k v m) ≡ keys m ++ k ∷ []
  unfolding keys put
  keys-put_new k v [] e = refl
  keys-put_new k v ((j, w) ∷ m) e = elim (Bool-cases (bytes_eq j k)) [
    | inl here ↦ let e' : true ≡ false = rw here at e in cc
    | inr there ↦ rw there (ap (λ ks. j ∷ ks) (keys-put_new k v m (rw there at e)))
  ]

  pub keys-put_known :
      (k : Bytes) (v : V) (m : List (Bytes × V)) → has k m ≡ true → keys (put k v m) ≡ keys m
  unfolding keys put
  keys-put_known k v [] e = cc
  keys-put_known k v ((j, w) ∷ m) e = elim (Bool-cases (bytes_eq j k)) [
    | inl here ↦ rw here refl
    | inr there ↦ rw there (ap (λ ks. j ∷ ks) (keys-put_known k v m (rw there at e)))
  ]

  pub occurrences-delete :
      (a k : Bytes) (m : List (Bytes × V))
      → occurrences a (keys (delete k m)) ≡ (if bytes_eq k a then 0 else occurrences a (keys m))
  unfolding occurrences keys delete
  occurrences-delete a k [] = ground arith
  occurrences-delete a k ((j, v) ∷ m) = elim (Bool-cases (bytes_eq j k)) [
    | inl same ↦ rw (same, bytes_eq→eq j k same, occurrences-delete a k m) (ground arith)
    | inr other ↦ elim (Bool-cases (bytes_eq k a)) [
      | inl here ↦
          let apart : bytes_eq j a ≡ false = rw (← bytes_eq→eq k a here) other in
          let rest = occurrences-delete a k m in
          let rest' = rw here at rest in rw (other, here, apart) (omega arith)
      | inr there ↦
          let rest = occurrences-delete a k m in
          let rest' = rw there at rest in rw (other, there) (omega arith)
    ]
  ]

  pub length-keys : (m : List (Bytes × V)) → length (keys m) ≡ length m
  unfolding keys
  length-keys [] = refl
  length-keys ((k, v) ∷ m) = ap suc (length-keys m)

pub keys-snapshots : (now : ℕ) (m : List (Bytes × ActiveWorker)) → keys (snapshots now m) ≡ keys m
unfolding keys snapshots
keys-snapshots now [] = refl
keys-snapshots now ((k, w) ∷ m) = ap (λ ks. k ∷ ks) (keys-snapshots now m)
