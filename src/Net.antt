-- ===== src/Net.antt =====
-- `net.IP` of the standard library: a byte string of 4 or 16 bytes, or nil (the empty one).
use project_based_learning.Base.{
  Option, none, some, [], ◌∷◌, ◌++◌, ◌&&◌, length, take, drop, ◌==◌, if◌then◌else◌, Bytes,
}
use project_based_learning.Base.Wire.{bytes_eq}

-- The first 12 bytes of an IPv4 address in 16 bytes.
abbrev pub v4_prefix : Bytes
v4_prefix = 0 ∷ 0 ∷ 0 ∷ 0 ∷ 0 ∷ 0 ∷ 0 ∷ 0 ∷ 0 ∷ 0 ∷ 255 ∷ 255 ∷ []

-- `To4`: none is nil.
unfoldable pub to_4 : Bytes → Option Bytes
to_4 ip =
    if length ip == 4
    then some ip
    else if length ip == 16 && bytes_eq (take 12 ip) v4_prefix
    then some (drop 12 ip)
    else none

-- `To16`.
unfoldable pub to_16 : Bytes → Option Bytes
to_16 ip =
    if length ip == 4 then some (v4_prefix ++ ip) else if length ip == 16 then some ip else none
