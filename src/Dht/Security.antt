-- ===== src/Dht/Security.antt =====
-- Node identifiers tied to addresses, BEP 42 (dht/security.go). The checksum CRC-32C is the
-- parameter `crc`.
pub mod Valid
use Prim.Native.Nat.{bit_and, bit_or}
use project_based_learning.Base.{
  ℕ, zero, suc, ◌+◌, ◌*◌, ◌/◌, ◌%◌, ◌^◌, Bool, true, false, not, ◌&&◌, ◌||◌, Option, none, some,
  List, [], ◌∷◌, ◌++◌, leb, ◌==◌, if◌then◌else◌, length, take, get_or, set, Bytes,
}
use project_based_learning.Base.Wire.{bytes_eq, put_u16}
use project_based_learning.Net.{to_4, to_16}

abbrev pub v4_mask : Bytes
v4_mask = 0x03 ∷ 0x0f ∷ 0x3f ∷ 0xff ∷ []

abbrev pub v6_mask : Bytes
v6_mask = 0x01 ∷ 0x03 ∷ 0x07 ∷ 0x0f ∷ 0x1f ∷ 0x3f ∷ 0x7f ∷ 0xff ∷ []

-- The address, which is as long as the mask or longer, under the mask.
unfoldable pub masked : Bytes → Bytes → Bytes
masked (a ∷ ip) (m ∷ mask) = bit_and a m ∷ masked ip mask
masked _ _ = []

-- `buf[0] |= r << 5` on bytes.
abbrev pub with_r : ℕ → Bytes → Bytes
with_r r [] = []
with_r r (b ∷ buf) = bit_or b ((r * 2 ^ 5) % 2 ^ 8) ∷ buf

-- `byte(x)`.
abbrev pub byte : ℕ → ℕ
byte x = x % 2 ^ 8

abbrev pub loopback_6 : Bytes
loopback_6 = 0 ∷ 0 ∷ 0 ∷ 0 ∷ 0 ∷ 0 ∷ 0 ∷ 0 ∷ 0 ∷ 0 ∷ 0 ∷ 0 ∷ 0 ∷ 0 ∷ 0 ∷ 1 ∷ []

-- `ip.Equal(net.IPv6loopback)`, where the address has no form of 4 bytes.
abbrev pub is_local_4 : Bytes → Option Bytes → Bool
is_local_4 ip none = bytes_eq ip loopback_6
is_local_4 ip (some ip4) =
    let a = get_or ip4 0 0 in
    let b = get_or ip4 1 0 in
    a == 10
    || (a == 172 && leb 16 b && leb b 31)
    || (a == 192 && b == 168)
    || (a == 169 && b == 254)
    || a == 127

unfoldable pub is_local_ip : Bytes → Bool
is_local_ip ip = is_local_4 ip (to_4 ip)

-- `ip` is given in 4 bytes, else in 16 bytes, else not.
abbrev pub by_family {ℓ} : {A : Type ℓ} → (Bytes → Bytes → A) → A → Option Bytes → Option Bytes → A
by_family f other (some ip4) long = f ip4 v4_mask
by_family f other none (some ip6) = f (take 8 ip6) v6_mask
by_family f other none none = other

module _ (crc : Bytes → ℕ) where
  abbrev pub crc_of : Bytes → Bytes → Bytes → ℕ
  crc_of id ip mask = crc (with_r (bit_and (get_or id 19 0) 0x07) (masked ip mask))

  -- The identifier has 20 bytes.
  unfoldable pub apply_bep42 : Bytes → Bytes → Bytes → Bytes
  apply_bep42 id ip mask =
      let r = bit_and (get_or id 19 0) 0x07 in
      let c = crc_of id ip mask in
      set
        (set (set (set id 0 (byte (c / 2 ^ 24))) 1 (byte (c / 2 ^ 16))) 2
          (bit_or (bit_and (byte (c / 2 ^ 8)) 0xf8) (bit_and (get_or id 2 0) 0x07)))
        19 (bit_or r (bit_and (get_or id 19 0) 0xf8))

  -- `random` is the identifier that `rand.Read` makes.
  unfoldable pub generate_secure_node_id : Bytes → Bytes → Bytes
  generate_secure_node_id random ip = by_family (apply_bep42 random) random (to_4 ip) (to_16 ip)

  unfoldable pub validate_bep42 : Bytes → Bytes → Bytes → Bool
  validate_bep42 id ip mask =
      let c = crc_of id ip mask in
      if not (get_or id 0 0 == byte (c / 2 ^ 24))
      then false
      else if not (get_or id 1 0 == byte (c / 2 ^ 16))
      then false
      else if not (bit_and (get_or id 2 0) 0xf8 == bit_and (byte (c / 2 ^ 8)) 0xf8)
      then false
      else true

  unfoldable pub validate_node_id : Bytes → Bytes → Bool
  validate_node_id id ip =
      if is_local_ip ip then true else by_family (validate_bep42 id) false (to_4 ip) (to_16 ip)

-- `ParseIPField`; none is nil.
unfoldable pub parse_ip_field : Bytes → Option Bytes
parse_ip_field d =
    if length d == 6 then some (take 4 d) else if length d == 18 then some (take 16 d) else none

abbrev pub put_ip_field : Option Bytes → Option Bytes → ℕ → Bytes
put_ip_field (some ip4) long port = ip4 ++ put_u16 port
put_ip_field none (some ip6) port = ip6 ++ put_u16 port
put_ip_field none none port = []

unfoldable pub encode_ip_field : Bytes → ℕ → Bytes
encode_ip_field ip port = put_ip_field (to_4 ip) (to_16 ip) port
