-- ===== src/Utp/Packet/RoundTrip.antt =====
-- A packet read back from its encoding.
use Prim.Native.Nat.{bit_and, bit_or}
use project_based_learning.Base.{
  ℕ, zero, suc, ◌*◌, ◌/◌, ◌%◌, ◌^◌, ◌≤◌, ◌<◌, ◌≡◌, ◌≢◌, refl, true, ◌&&◌, List, [], ◌∷◌, ◌++◌,
  append_assoc, arith, ◌==◌, length, length-drop, length-append, drop, take-append, drop-append,
  Bytes, All,
}
use project_based_learning.Base.Table.{every_below, every_below_sound}
use project_based_learning.Base.Wire.{IsU16, IsU32, get_u16-put, get_u32-put}
use project_based_learning.Base.Fallible.{Fallible}
use project_based_learning.Base.Outcome.{Outcome, ok, err, panic, out_of_fuel, ◌>>=◌}
use project_based_learning.Utp.Packet.{
  header_size, version_1, ext_none, Header, ExtensionHeader, Packet, encode_header, read_header,
  check_version, decode_header, next_type, encode_extensions, encode_packet, decode_extensions,
  decode_packet,
}

-- The two nibbles of the first byte, for every type of four bits and version 1.
nibble_table :
    every_below
      (λ t.
        let b = bit_or ((t * 2 ^ 4) % 2 ^ 8) (bit_and 1 0x0f) in
        bit_and (b / 2 ^ 4) 0x0f == t && bit_and b 0x0f == 1)
      16
    ≡ true
unfolding every_below
nibble_table = refl

-- A header as Go holds it, with a type of four bits and the version that is supported.
pub record IsHeader (h : Header) : Type 0 where
  pub type_fits : h.type < 16
  pub version_known : h.version ≡ version_1
  pub conn_id_fits : IsU16 h.conn_id
  pub timestamp_fits : IsU32 h.timestamp
  pub time_diff_fits : IsU32 h.time_diff
  pub wnd_size_fits : IsU32 h.wnd_size
  pub seq_nr_fits : IsU16 h.seq_nr
  pub ack_nr_fits : IsU16 h.ack_nr

from_get : {a b : ℕ} → Fallible.ok a ≡ Fallible.ok b → a ≡ b
from_get h = cc

module _ (h : Header) (v : IsHeader h) where
  abbrev first_byte : ℕ
  first_byte = bit_or ((h.type * 2 ^ 4) % 2 ^ 8) (bit_and h.version 0x0f)

  nibbles : (bit_and (first_byte / 2 ^ 4) 0x0f ≡ h.type) × (bit_and first_byte 0x0f ≡ h.version)
  nibbles =
      rw v.version_known (ground (arith, every_below_sound _ 16 h.type nibble_table v.type_fits))

  read-encode : (rest : Bytes) → read_header (encode_header h ++ rest) ≡ ok h
  unfolding encode_header
  read-encode rest =
      let conn_id = from_get (get_u16-put h.conn_id [] v.conn_id_fits) in
      let timestamp = from_get (get_u32-put h.timestamp [] v.timestamp_fits) in
      let time_diff = from_get (get_u32-put h.time_diff [] v.time_diff_fits) in
      let wnd_size = from_get (get_u32-put h.wnd_size [] v.wnd_size_fits) in
      let seq_nr = from_get (get_u16-put h.seq_nr [] v.seq_nr_fits) in
      let ack_nr = from_get (get_u16-put h.ack_nr [] v.ack_nr_fits) in
      λ i. ok (record {
        type = nibbles.0 i;
        version = nibbles.1 i;
        extension = h.extension;
        conn_id = conn_id i;
        timestamp = timestamp i;
        time_diff = time_diff i;
        wnd_size = wnd_size i;
        seq_nr = seq_nr i;
        ack_nr = ack_nr i;
      })

  check_version-ok : check_version h ≡ ok h
  check_version-ok = ground (arith, v.version_known)

  -- A header is read back from its 20 bytes, whatever follows.
  decode-encode_header : (rest : Bytes) → decode_header (encode_header h ++ rest) ≡ ok h
  unfolding decode_header
  decode-encode_header rest =
      rw (read-encode rest, check_version-ok) (unfold encode_header in ground arith)

-- Each extension has a type and a length of one byte, and its type is not that of the end.
abbrev pub IsChain : List ExtensionHeader → Type 0
IsChain = All (λ e. (e.type ≢ ext_none) × (length e.payload < 256))

stop : (f : ℕ) (d : Bytes) → decode_extensions (suc f) ext_none d ≡ ok ([], d)
unfolding decode_extensions
stop f [] = refl
stop f (a ∷ []) = refl
stop f (a ∷ b ∷ d) = refl

-- One round of the loop, on an extension whose successor is read by the next rounds.
step :
    (f type next : ℕ) (payload d : Bytes) {es : List ExtensionHeader} {r : Bytes}
    → type ≢ ext_none
    → decode_extensions f next d ≡ ok (es, r)
    → decode_extensions (suc f) type (next ∷ length payload ∷ (payload ++ d))
      ≡ ok (record { type = type; payload = payload } ∷ es, r)
unfolding decode_extensions
step f type next payload d h ih =
    ground (arith, ih, h, take-append payload d, drop-append payload d, length-append payload d)

decode-encode_extensions :
    (es : List ExtensionHeader) (rest : Bytes) (f : ℕ)
    → IsChain es
    → length es < f
    → decode_extensions f (next_type es) (encode_extensions es ++ rest) ≡ ok (es, rest)
unfolding encode_extensions
decode-encode_extensions es rest zero c fuel = absurd (omega arith)
decode-encode_extensions [] rest (suc f) c fuel = stop f rest
decode-encode_extensions (e ∷ es) rest (suc f) c fuel =
    let ih = decode-encode_extensions es rest f c.1 (omega arith) in
    let n : length e.payload % 2 ^ 8 ≡ length e.payload = omega (arith, c.0) in
    rw (n, append_assoc)
      (step f e.type (next_type es) e.payload (encode_extensions es ++ rest) c.0.0 ih)

-- The extensions fit in the data that carries them.
length-extensions :
    (es : List ExtensionHeader) (rest : Bytes) → length es ≤ length (encode_extensions es ++ rest)
unfolding encode_extensions
length-extensions [] rest = omega arith
length-extensions (e ∷ es) rest = omega (
  arith,
  length-append (e.payload ++ encode_extensions es) rest,
  length-append e.payload (encode_extensions es),
  length-append (encode_extensions es) rest,
  length-extensions es rest,
)

drop-header : (h : Header) (d : Bytes) → drop header_size (encode_header h ++ d) ≡ d
unfolding encode_header
drop-header h d = refl

extensions_at :
    (es : List ExtensionHeader) (rest : Bytes) (f : ℕ) {n : ℕ}
    → n ≡ next_type es
    → IsChain es
    → length es < f
    → decode_extensions f n (encode_extensions es ++ rest) ≡ ok (es, rest)
extensions_at es rest f e c fuel = rw e (decode-encode_extensions es rest f c fuel)

-- A packet with a supported header whose extension field is the type of its first extension, and
-- with extensions of at most 255 bytes, is read back from its encoding.
pub decode-encode_packet :
    (p : Packet)
    → IsHeader p.header
    → p.header.extension ≡ next_type p.extensions
    → IsChain p.extensions
    → decode_packet (encode_packet p) ≡ ok p
unfolding decode_packet encode_packet
decode-encode_packet p v first chain =
    let d = encode_extensions p.extensions ++ p.payload in
    let found =
      extensions_at p.extensions p.payload (suc (length (encode_header p.header ++ d))) first chain
        (omega (
          arith,
          length-append (encode_header p.header) d,
          length-extensions p.extensions p.payload,
        )) in
    rw (decode-encode_header p.header v d, drop-header p.header d, found)

extensions-total :
    (f next : ℕ) (d : Bytes) → length d < f → decode_extensions f next d ≢ out_of_fuel
unfolding decode_extensions
extensions-total zero next d h = absurd (omega arith)
extensions-total (suc f) next [] h = ground arith
extensions-total (suc f) next (a ∷ []) h = ground arith
extensions-total (suc f) next (a ∷ n ∷ d) h =
    ground (arith, extensions-total f a (drop n d), length-drop n d)

header-total : (d : Bytes) → decode_header d ≢ out_of_fuel
unfolding decode_header
header-total d = ground arith

packet-total :
    (d : Bytes) (o : Outcome Header)
    → o ≢ out_of_fuel
    → (o >>= λ h. decode_extensions (suc (length d)) h.extension (drop header_size d) >>= λ (es, r).
        ok (let p : Packet = record { header = h; extensions = es; payload = r } in p))
      ≢ out_of_fuel
packet-total d (ok h) ne = ground (
  arith,
  extensions-total (suc (length d)) h.extension (drop header_size d),
  length-drop header_size d,
)
packet-total d err ne = cc
packet-total d panic ne = cc
packet-total d out_of_fuel ne = λ _. ne refl

-- On every input the packet decoder comes to an end within its fuel.
pub decode_packet-ne-out_of_fuel : (d : Bytes) → decode_packet d ≢ out_of_fuel
unfolding decode_packet
decode_packet-ne-out_of_fuel d = packet-total d (decode_header d) (header-total d)
