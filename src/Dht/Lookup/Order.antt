-- ===== src/Dht/Lookup/Order.antt =====
-- `sortByDistance` sorts.
use project_based_learning.Base.{
  ℕ, zero, suc, ◌≡◌, true, Bool, List, [], ◌∷◌, ◌++◌, take, All, All-append, Bytes,
}
use project_based_learning.Base.Sorting.{insert_by, IsSorted, insert_by-IsSorted}
use project_based_learning.Dht.Table.{Node, is_near}
use project_based_learning.Dht.Table.Closest.{is_near_total, is_near_trans}
use project_based_learning.Dht.Lookup.{stops_at, sort_from, reversed, sort_by_distance}

pub All-take {ℓ κ} :
    {A : Type ℓ} (P : A → Type κ) (n : ℕ) (xs : List A) → All P xs → All P (take n xs)
All-take P zero xs h = tt
All-take P (suc n) [] h = tt
All-take P (suc n) (x ∷ xs) h = (h.0, All-take P n xs h.1)

IsSorted-take :
    (le : Node → Node → Bool) (n : ℕ) (xs : List Node) → IsSorted le xs → IsSorted le (take n xs)
IsSorted-take le zero xs h = tt
IsSorted-take le (suc n) [] h = tt
IsSorted-take le (suc n) (x ∷ xs) h =
    (All-take (λ y. le x y ≡ true) n xs h.0, IsSorted-take le n xs h.1)

module _ (target : Bytes) where
  -- Sorted from the end, and so from the start when reversed.
  stops_at-IsSorted :
      (done nodes : List Node)
      → IsSorted (stops_at target) done
      → IsSorted (stops_at target) (sort_from target done nodes)
  stops_at-IsSorted done [] h = h
  stops_at-IsSorted done (n ∷ nodes) h =
      stops_at-IsSorted (insert_by (stops_at target) n done) nodes (
        insert_by-IsSorted (stops_at target) (λ a b. is_near_total target b a)
          (λ a b c h k. is_near_trans target c b a k h) n done h)

  All-reversed {κ} : (P : Node → Type κ) (xs : List Node) → All P xs → All P (reversed xs)
  All-reversed P [] h = tt
  All-reversed P (x ∷ xs) h = All-append P (reversed xs) (x ∷ []) (All-reversed P xs h.1) (h.0, tt)

  IsSorted-last :
      (xs : List Node) (n : Node)
      → IsSorted (is_near target) xs
      → All (λ x. is_near target x n ≡ true) xs
      → IsSorted (is_near target) (xs ++ n ∷ [])
  IsSorted-last [] n h k = (tt, tt)
  IsSorted-last (x ∷ xs) n h k = (
    All-append (λ y. is_near target x y ≡ true) xs (n ∷ []) h.0 (k.0, tt),
    IsSorted-last xs n h.1 k.1,
  )

  IsSorted-reversed :
      (xs : List Node) → IsSorted (stops_at target) xs → IsSorted (is_near target) (reversed xs)
  IsSorted-reversed [] h = tt
  IsSorted-reversed (x ∷ xs) h =
      IsSorted-last (reversed xs) x (IsSorted-reversed xs h.1)
        (All-reversed (λ y. is_near target y x ≡ true) xs h.0)

  -- The first nodes of a sorted list are sorted.
  pub take-sort_by_distance :
      (n : ℕ) (nodes : List Node)
      → IsSorted (is_near target) (take n (sort_by_distance target nodes))
  unfolding sort_by_distance
  take-sort_by_distance n nodes =
      IsSorted-take (is_near target) n _
        (IsSorted-reversed (sort_from target [] nodes) (stops_at-IsSorted [] nodes tt))
