-- ===== src/Peer/Priority.antt =====
-- The canonical priority of a peer (peer/priority.go), over an abstract CRC-32C.
pub mod Symmetry
use Prim.Native.Nat.{bit_and}
use project_based_learning.Base.{
  ℕ, zero, suc, ◌+◌, Bool, true, false, ◌&&◌, Option, none, some, List, [], ◌∷◌, ◌++◌, map, ltb,
  leb, ◌==◌, if◌then◌else◌, take, drop, get_or, Bytes,
}
use project_based_learning.Net.{to_4, to_16}

abbrev pub ipv4_mask_default : Bytes
ipv4_mask_default = 255 ∷ 255 ∷ 85 ∷ 85 ∷ []

abbrev pub ipv4_mask_same_16 : Bytes
ipv4_mask_same_16 = 255 ∷ 255 ∷ 255 ∷ 85 ∷ []

-- `bytes.Compare(a, b) > 0`.
unfoldable pub is_after : Bytes → Bytes → Bool
is_after [] t = false
is_after (a ∷ s) [] = true
is_after (a ∷ s) (b ∷ t) =
    let rest = is_after s t in if ltb b a then true else if ltb a b then false else rest

unfoldable pub low_high : Bytes → Bytes → Bytes
low_high a b = if is_after a b then b ++ a else a ++ b

abbrev pub same_at : ℕ → Bytes → Bytes → Bool
same_at i a b = get_or a i 0 == get_or b i 0

-- The mask for two addresses, none where they are used in full.
abbrev pub ipv4_mask : Bytes → Bytes → Option Bytes
ipv4_mask a b =
    if same_at 0 a b && same_at 1 a b && same_at 2 a b
    then none
    else if same_at 0 a b && same_at 1 a b
    then some ipv4_mask_same_16
    else some ipv4_mask_default

unfoldable pub bytewise_and : Bytes → Bytes → Bytes
bytewise_and (a ∷ s) (m ∷ mask) = bit_and a m ∷ bytewise_and s mask
bytewise_and _ _ = []

abbrev pub masked : Option Bytes → Bytes → Bytes
masked none a = a
masked (some mask) a = bytewise_and a mask

abbrev pub mask_ipv4 : Bytes → Bytes → Bytes × Bytes
mask_ipv4 a b = (masked (ipv4_mask a b) a, masked (ipv4_mask a b) b)

-- How many bytes agree before the first that do not.
unfoldable pub shared : Bytes → Bytes → ℕ
shared (a ∷ s) (b ∷ t) = let rest = shared s t in if a == b then suc rest else 0
shared _ _ = 0

abbrev pub prefix_bytes : Bytes → Bytes → ℕ
prefix_bytes a b = 6 + shared (drop 6 a) (drop 6 b)

abbrev pub masked_from : ℕ → Bytes → Bytes
masked_from n a = if leb 16 n then a else take n a ++ map (λ x. bit_and x 85) (drop n a)

abbrev pub mask_ipv6 : Bytes → Bytes → Bytes × Bytes
mask_ipv6 a b = (masked_from (prefix_bytes a b) a, masked_from (prefix_bytes a b) b)

module _ (crc32c : Bytes → ℕ) where
  abbrev pub checksum : Bytes × Bytes → ℕ
  checksum (a, b) = crc32c (low_high a b)

  abbrev pub priority_6 : Option Bytes → Option Bytes → ℕ
  priority_6 (some a) (some b) = checksum (mask_ipv6 a b)
  priority_6 _ _ = 0

  abbrev pub priority_4 : Option Bytes → Option Bytes → ℕ → ℕ
  priority_4 (some a) (some b) otherwise = checksum (mask_ipv4 a b)
  priority_4 _ _ otherwise = otherwise

  unfoldable pub priority : Bytes → Bytes → ℕ
  priority self_ip peer_ip =
      priority_4 (to_4 self_ip) (to_4 peer_ip) (priority_6 (to_16 self_ip) (to_16 peer_ip))
