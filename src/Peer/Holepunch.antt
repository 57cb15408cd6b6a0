-- ===== src/Peer/Holepunch.antt =====
-- The holepunch message of BEP 55 (peer/holepunch.go).
pub mod RoundTrip
use project_based_learning.Base.{
  ℕ, ◌+◌, Bool, Option, none, some, [], ◌∷◌, ◌++◌, ltb, ◌==◌, if◌then◌else◌, length, take, drop,
  get_or, replicate, Bytes,
}
use project_based_learning.Base.Fallible.{Fallible, ok, err, ◌>>=◌}
use project_based_learning.Base.Wire.{put_u16, put_u32, get_u16, get_u32}
use project_based_learning.Net.{to_4, to_16}

abbrev pub ipv4 : ℕ
ipv4 = 0

abbrev pub ipv6 : ℕ
ipv6 = 1

pub record HolepunchMessage : Type 0 where
  pub msg_type : ℕ
  pub addr_type : ℕ
  pub ip : Bytes
  pub port : ℕ
  pub err_code : ℕ

abbrev pub or_zeros : ℕ → Option Bytes → Bytes
or_zeros n none = replicate n 0
or_zeros n (some b) = b

unfoldable pub addr_bytes : HolepunchMessage → Bytes
addr_bytes m = if m.addr_type == ipv6 then or_zeros 16 (to_16 m.ip) else or_zeros 4 (to_4 m.ip)

unfoldable pub encode_holepunch : HolepunchMessage → Bytes
encode_holepunch m =
    m.msg_type ∷ m.addr_type ∷ (addr_bytes m ++ (put_u16 m.port ++ put_u32 m.err_code))

-- The fields behind the two bytes of types, with the length of the address.
abbrev pub read_addr : ℕ → Bytes → Fallible HolepunchMessage
read_addr addr_len d = do
  port ← get_u16 (drop (2 + addr_len) d)
  code ← get_u32 (drop (2 + addr_len + 2) d)
  ok (record {
    msg_type = get_or d 0 0;
    addr_type = get_or d 1 0;
    ip = take addr_len (drop 2 d);
    port = port;
    err_code = code;
  })

unfoldable pub decode_sized : ℕ → Bytes → Fallible HolepunchMessage
decode_sized addr_len d =
    let fields = read_addr addr_len d in
    if ltb (length d) (2 + addr_len + 2 + 4) then err else fields

unfoldable pub decode_holepunch : Bytes → Fallible HolepunchMessage
decode_holepunch d =
    if ltb (length d) 2
    then err
    else if get_or d 1 0 == ipv4
    then decode_sized 4 d
    else if get_or d 1 0 == ipv6
    then decode_sized 16 d
    else err
