-- ===== src/Utp/Packet.antt =====
-- The uTP header and packet (utp/utp.go, lines 14 to 175).
pub mod RoundTrip
use Prim.Native.Nat.{bit_and, bit_or}
use project_based_learning.Base.{
  ℕ, zero, suc, ◌+◌, ◌-◌, ◌*◌, ◌/◌, ◌%◌, ◌^◌, Bool, not, List, [], ◌∷◌, ◌++◌, ltb, ◌==◌,
  if◌then◌else◌, length, take, drop, get_or, Bytes,
}
use project_based_learning.Base.Wire.{put_u16, put_u32, get_u16, get_u32}
use project_based_learning.Base.Outcome.{Outcome, ok, err, panic, out_of_fuel, ◌>>=◌, from_fallible}

abbrev pub header_size : ℕ
header_size = 20

abbrev pub version_1 : ℕ
version_1 = 1

abbrev pub ext_none : ℕ
ext_none = 0

pub record Header : Type 0 where
  pub type : ℕ
  pub version : ℕ
  pub extension : ℕ
  pub conn_id : ℕ
  pub timestamp : ℕ
  pub time_diff : ℕ
  pub wnd_size : ℕ
  pub seq_nr : ℕ
  pub ack_nr : ℕ

pub record ExtensionHeader : Type 0 where
  pub type : ℕ
  pub payload : Bytes

pub record Packet : Type 0 where
  pub header : Header
  pub extensions : List ExtensionHeader
  pub payload : Bytes

-- `EncodeHeader`: the 20 bytes that it writes. `h.Type << 4` is a byte.
unfoldable pub encode_header : Header → Bytes
encode_header h =
    bit_or ((h.type * 2 ^ 4) % 2 ^ 8) (bit_and h.version 0x0f)
    ∷ h.extension
    ∷ (put_u16 h.conn_id
        ++ put_u32 h.timestamp
        ++ put_u32 h.time_diff
        ++ put_u32 h.wnd_size
        ++ put_u16 h.seq_nr
        ++ put_u16 h.ack_nr)

abbrev pub read_header : Bytes → Outcome Header
read_header d = do
  conn_id ← from_fallible (get_u16 (drop 2 d))
  timestamp ← from_fallible (get_u32 (drop 4 d))
  time_diff ← from_fallible (get_u32 (drop 8 d))
  wnd_size ← from_fallible (get_u32 (drop 12 d))
  seq_nr ← from_fallible (get_u16 (drop 16 d))
  ack_nr ← from_fallible (get_u16 (drop 18 d))
  ok (record {
    type = bit_and (get_or d 0 0 / 2 ^ 4) 0x0f;
    version = bit_and (get_or d 0 0) 0x0f;
    extension = get_or d 1 0;
    conn_id = conn_id;
    timestamp = timestamp;
    time_diff = time_diff;
    wnd_size = wnd_size;
    seq_nr = seq_nr;
    ack_nr = ack_nr;
  })

abbrev pub check_version : Header → Outcome Header
check_version h = if not (h.version == version_1) then err else ok h

unfoldable pub decode_header : Bytes → Outcome Header
decode_header d =
    let fields = read_header d >>= check_version in
    if ltb (length d) header_size then err else fields

-- The extension list: each entry starts with the type of the next one.
abbrev pub next_type : List ExtensionHeader → ℕ
next_type [] = ext_none
next_type (e ∷ es) = e.type

unfoldable pub encode_extensions : List ExtensionHeader → Bytes
encode_extensions [] = []
encode_extensions (e ∷ es) =
    next_type es ∷ length e.payload % 2 ^ 8 ∷ (e.payload ++ encode_extensions es)

unfoldable pub encode_packet : Packet → Bytes
encode_packet p = encode_header p.header ++ (encode_extensions p.extensions ++ p.payload)

-- The loop of `DecodePacket` on the data from the offset on: the extensions, and what follows
-- them. Each round takes two bytes at least, so the length is enough fuel.
unfoldable pub decode_extensions : ℕ → ℕ → Bytes → Outcome (List ExtensionHeader × Bytes)
decode_extensions zero next d = out_of_fuel
decode_extensions (suc f) next [] = if next == ext_none then ok ([], []) else err
decode_extensions (suc f) next (a ∷ []) = if next == ext_none then ok ([], a ∷ []) else err
decode_extensions (suc f) next (a ∷ n ∷ d) =
    let rest = do
      (es, r) ← decode_extensions f a (drop n d)
      ok (record { type = next; payload = take n d } ∷ es, r)
    in if next == ext_none then ok ([], a ∷ n ∷ d) else if ltb (length d) n then err else rest

unfoldable pub decode_packet : Bytes → Outcome Packet
decode_packet d = do
  h ← decode_header d
  (es, r) ← decode_extensions (suc (length d)) h.extension (drop header_size d)
  ok (record { header = h; extensions = es; payload = r })
