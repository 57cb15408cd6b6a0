-- ===== src/Dht/Table/Bucket.antt =====
-- One bucket: small, without two nodes of one identifier, and each node where its distance says.
use project_based_learning.Base.{
  ℕ, ◌+◌, ◌≤◌, ◌<◌, ◌≡◌, true, false, Bool-cases, inl, inr, Option, none, some, List, [], ◌∷◌, ◌++◌,
  arith, leb, length, length-append, Bytes, All, All-append,
}
use mathlib.Core.Path.{subst}
use project_based_learning.Base.Wire.{bytes_eq, bytes_eq→eq, bytes_eq_sym}
use project_based_learning.Base.Distinct
use project_based_learning.Dht.Table.{
  bucket_size, Node, xor, bucket_index, has_id, drop_id, insert_bucket,
}

abbrev pub Lacks : Bytes → List Node → Type 0
Lacks = Distinct.Lacks (λ n. n.id)

abbrev pub IsDistinct : List Node → Type 0
IsDistinct = Distinct.IsDistinct (λ n. n.id)

pub record IsBucket (own : Bytes) (i : ℕ) (bucket : List Node) : Type 0 where
  pub small : length bucket ≤ bucket_size
  pub placed : All (λ n. bucket_index (xor own n.id) ≡ some i) bucket
  pub distinct : IsDistinct bucket

abbrev pub IfSome {ℓ κ} : {A : Type ℓ} → (A → Type κ) → Option A → Type κ
IfSome P none = Unit
IfSome P (some a) = P a

pub Lacks-has_id : (id : Bytes) (bucket : List Node) → has_id id bucket ≡ false → Lacks id bucket
unfolding has_id
Lacks-has_id id [] h = tt
Lacks-has_id id (e ∷ bucket) h = (ground (arith, h), Lacks-has_id id bucket (ground (arith, h)))

All-drop_id {κ} :
    (P : Node → Type κ) (id : Bytes) (bucket : List Node) → All P bucket → All P (drop_id id bucket)
unfolding drop_id
All-drop_id P id [] h = tt
All-drop_id P id (e ∷ bucket) h = elim (Bool-cases (bytes_eq e.id id)) [
  | inl same ↦ rw same h.1
  | inr other ↦ rw other (h.0, All-drop_id P id bucket h.1)
]

Lacks-drop_id : (id : Bytes) (bucket : List Node) → IsDistinct bucket → Lacks id (drop_id id bucket)
unfolding drop_id
Lacks-drop_id id [] h = tt
Lacks-drop_id id (e ∷ bucket) h = elim (Bool-cases (bytes_eq e.id id)) [
  | inl same ↦
      let e' : e.id ≡ id = bytes_eq→eq e.id id same in rw same (subst (λ k. Lacks k bucket) e' h.0)
  | inr other ↦ rw other (other, Lacks-drop_id id bucket h.1)
]

IsDistinct-drop_id :
    (id : Bytes) (bucket : List Node) → IsDistinct bucket → IsDistinct (drop_id id bucket)
unfolding drop_id
IsDistinct-drop_id id [] h = tt
IsDistinct-drop_id id (e ∷ bucket) h = elim (Bool-cases (bytes_eq e.id id)) [
  | inl same ↦ rw same h.1
  | inr other ↦ rw other (
    All-drop_id (λ m. bytes_eq m.id e.id ≡ false) id bucket h.0,
    IsDistinct-drop_id id bucket h.1,
  )
]

pub IsDistinct-append :
    (n : Node) (bucket : List Node)
    → Lacks n.id bucket
    → IsDistinct bucket
    → IsDistinct (bucket ++ n ∷ [])
IsDistinct-append n [] l h = (tt, tt)
IsDistinct-append n (e ∷ bucket) l h = (
  All-append (λ m. bytes_eq m.id e.id ≡ false) bucket (n ∷ []) h.0 (bytes_eq_sym e.id n.id l.0, tt),
  IsDistinct-append n bucket l.1 h.1,
)

length-drop_id : (id : Bytes) (bucket : List Node) → length (drop_id id bucket) ≤ length bucket
unfolding drop_id
length-drop_id id [] = omega arith
length-drop_id id (e ∷ bucket) = ground (arith, length-drop_id id bucket)

length-drop_found :
    (id : Bytes) (bucket : List Node)
    → has_id id bucket ≡ true
    → length (drop_id id bucket) + 1 ≡ length bucket
unfolding has_id drop_id
length-drop_found id [] h = cc
length-drop_found id (e ∷ bucket) h = ground (arith, length-drop_found id bucket)

module _ (own : Bytes) (i : ℕ) (bucket : List Node) (v : IsBucket own i bucket) where
  pub drop_id-IsBucket : (id : Bytes) → IsBucket own i (drop_id id bucket)
  drop_id-IsBucket id = record {
    small = omega (arith, length-drop_id id bucket, v.small);
    placed = All-drop_id (λ n. bucket_index (xor own n.id) ≡ some i) id bucket v.placed;
    distinct = IsDistinct-drop_id id bucket v.distinct;
  }

  -- A node of this bucket, put behind nodes that have another identifier.
  behind :
      (n : Node) (others : List Node)
      → bucket_index (xor own n.id) ≡ some i
      → IsBucket own i others
      → Lacks n.id others
      → length others < bucket_size
      → IsBucket own i (others ++ n ∷ [])
  behind n others here w l room = record {
    small = omega (arith, length-append others (n ∷ []));
    placed =
        All-append (λ m. bucket_index (xor own m.id) ≡ some i) others (n ∷ []) w.placed (here, tt);
    distinct = IsDistinct-append n others l w.distinct;
  }

  pub insert_bucket-IsBucket :
      (n : Node)
      → bucket_index (xor own n.id) ≡ some i
      → IfSome (IsBucket own i) (insert_bucket n bucket)
  unfolding insert_bucket
  insert_bucket-IsBucket n here = elim (Bool-cases (has_id n.id bucket)) [
    | inl old ↦ rw old (
        behind n (drop_id n.id bucket) here (drop_id-IsBucket n.id)
          (Lacks-drop_id n.id bucket v.distinct)
          (omega (arith, length-drop_found n.id bucket old, v.small)))
    | inr new ↦ elim (Bool-cases (leb bucket_size (length bucket))) [
      | inl full ↦ rw (new, full) tt
      | inr room ↦
          rw (new, room)
            (behind n bucket here v (Lacks-has_id n.id bucket new) (ground (arith, room)))
    ]
  ]
