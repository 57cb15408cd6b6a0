-- ===== src/Peer/Priority/Symmetry.antt =====
-- Both ends of a connection compute the same priority.
use project_based_learning.Base.{
  ℕ, ◌≡◌, refl, ap, true, false, Option, none, some, [], ◌∷◌, drop, get_or, arith, ◌==◌, Bool-cases,
  inl, inr, Bytes,
}
use project_based_learning.Net.{to_4, to_16}
use project_based_learning.Peer.Priority.{
  is_after, low_high, ipv4_mask, masked, shared, prefix_bytes, masked_from, priority_4, priority_6,
  priority,
}

eq_sym : (a b : ℕ) → (a == b) ≡ (b == a)
eq_sym a b = ground arith

is_after-asym : (s t : Bytes) → is_after s t ≡ true → is_after t s ≡ false
unfolding is_after
is_after-asym [] t h = cc
is_after-asym (a ∷ s) [] h = refl
is_after-asym (a ∷ s) (b ∷ t) h = ground (arith, is_after-asym s t)

is_after-total : (s t : Bytes) → is_after s t ≡ false → is_after t s ≡ false → s ≡ t
unfolding is_after
is_after-total [] [] h h' = refl
is_after-total [] (b ∷ t) h h' = cc
is_after-total (a ∷ s) [] h h' = cc
is_after-total (a ∷ s) (b ∷ t) h h' = ground (arith, is_after-total s t)

low_high_comm : (a b : Bytes) → low_high a b ≡ low_high b a
unfolding low_high
low_high_comm a b = elim (Bool-cases (is_after a b)) [
  | inl h ↦ rw (h, is_after-asym a b h) refl
  | inr h ↦ elim (Bool-cases (is_after b a)) [
    | inl h' ↦ rw (h, h') refl
    | inr h' ↦ rw (h, h', is_after-total a b h h') refl
  ]
]

ipv4_mask_comm : (a b : Bytes) → ipv4_mask a b ≡ ipv4_mask b a
ipv4_mask_comm a b =
    rw
      (
        eq_sym (get_or a 0 0) (get_or b 0 0),
        eq_sym (get_or a 1 0) (get_or b 1 0),
        eq_sym (get_or a 2 0) (get_or b 2 0),
      )
      refl

shared_comm : (s t : Bytes) → shared s t ≡ shared t s
unfolding shared
shared_comm [] [] = refl
shared_comm [] (b ∷ t) = refl
shared_comm (a ∷ s) [] = refl
shared_comm (a ∷ s) (b ∷ t) = rw (eq_sym a b, shared_comm s t) refl

module _ (crc32c : Bytes → ℕ) where
  priority_6_comm : (a b : Option Bytes) → priority_6 crc32c a b ≡ priority_6 crc32c b a
  priority_6_comm none none = refl
  priority_6_comm none (some b) = refl
  priority_6_comm (some a) none = refl
  priority_6_comm (some a) (some b) =
      let n = shared_comm (drop 6 a) (drop 6 b) in
      rw n (
        ap crc32c
          (low_high_comm (masked_from (prefix_bytes b a) a) (masked_from (prefix_bytes b a) b)))

  priority_4_comm :
      (a b : Option Bytes) (n m : ℕ) → n ≡ m → priority_4 crc32c a b n ≡ priority_4 crc32c b a m
  priority_4_comm none none n m e = e
  priority_4_comm none (some b) n m e = e
  priority_4_comm (some a) none n m e = e
  priority_4_comm (some a) (some b) n m e =
      rw (ipv4_mask_comm a b)
        (ap crc32c (low_high_comm (masked (ipv4_mask b a) a) (masked (ipv4_mask b a) b)))

-- Both ends of a connection compute the same priority, whatever their addresses.
pub priority_comm :
    (crc32c : Bytes → ℕ) (self_ip peer_ip : Bytes)
    → priority crc32c self_ip peer_ip ≡ priority crc32c peer_ip self_ip
unfolding priority
priority_comm crc32c self_ip peer_ip =
    priority_4_comm crc32c (to_4 self_ip) (to_4 peer_ip) _ _
      (priority_6_comm crc32c (to_16 self_ip) (to_16 peer_ip))
