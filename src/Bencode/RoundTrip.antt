-- ===== src/Bencode/RoundTrip.antt =====
-- What `Encode` writes, `Decode` reads back.
use project_based_learning.Base.{
  ℕ, zero, suc, ◌+◌, ◌-◌, ◌*◌, ◌^◌, ◌<◌, ◌≡◌, ◌≢◌, refl, ap, ◌∙◌, false, Option, none, some, [],
  ◌∷◌, ◌++◌, append_assoc, append-nil, arith, length, take, take-append, Bytes, IsInt64,
  ne→==_false, lengths, length-append_bytes,
}
use project_based_learning.Bencode.Decimal.{IsDigit, append_int, decimal-IsPrint}
use project_based_learning.Bencode.Value.{
  Value, Items, Entries, str, int, list, dict, nil, cons, end, entry, encode_str, sort_keys,
  write_entries, encode, encode_items, encode_entries,
}
use project_based_learning.Bencode.Outcome.{ok, ◌>>=◌}
use project_based_learning.Bencode.Decode.{
  decode_str, decode_int, out_of_order, decode_value, decode_items, decode_entries, fuel_for,
  decode, decode_first, RawDict, decode_raw_entries, decode_dict_raw,
}
use project_based_learning.Bencode.Texts.{decode_str-encode_str, decode_int-append_int}

-- A value as Go holds it: integers of 64 bits, and each dict listed in ascending order of its
-- keys. (A Go map has no order; the ascending list stands for it.)
abbrev mutual
  pub IsCanonical : Value → Type 0
  IsCanonical (str s) = Unit
  IsCanonical (int z) = IsInt64 z
  IsCanonical (list xs) = AreCanonical xs
  IsCanonical (dict es) = IsAscending none es

  pub AreCanonical : Items → Type 0
  AreCanonical nil = Unit
  AreCanonical (cons v xs) = IsCanonical v × AreCanonical xs

  pub IsAscending : Option Bytes → Entries → Type 0
  IsAscending prev end = Unit
  IsAscending prev (entry k v es) =
      (out_of_order prev k ≡ false) × IsCanonical v × IsAscending (some k) es

-- Ascending entries are sorted already.
pub sort-ascending :
    (prev : Option Bytes) (es : Entries)
    → IsAscending prev es
    → sort_keys (encode_entries es) ≡ encode_entries es
unfolding encode
sort-ascending prev end h = refl
sort-ascending prev (entry k v end) h = refl
sort-ascending prev (entry k v (entry j w es)) h =
    ground (arith, sort-ascending (some k) (entry j w es) h.2)

-- A text and its first byte.
abbrev Begins : Bytes → (ℕ → Type 0) → Type 0
Begins s P = (c : ℕ) × (t : Bytes) × (s ≡ c ∷ t) × P c

encode_str-Begins : (s : Bytes) → Begins (encode_str s) IsDigit
unfolding encode_str
encode_str-Begins s =
    let p = decimal-IsPrint (length s) in (p.head, p.rest ++ b':' ∷ s, rw p.split, p.head_digit)

encode-Begins : (v : Value) → Begins (encode v) (λ c. c ≢ b'e')
unfolding encode
encode-Begins (str s) = let (c, t, e, h) = encode_str-Begins s in (c, t, e, omega arith)
encode-Begins (int n) = (b'i', append_int n ++ b'e' ∷ [], refl, omega arith)
encode-Begins (list xs) = (b'l', encode_items xs ++ b'e' ∷ [], refl, omega arith)
encode-Begins (dict es) =
    (b'd', write_entries (sort_keys (encode_entries es)) ++ b'e' ∷ [], refl, omega arith)

-- One round of each loop, on a text that begins with another byte than `e`.
pub value_str :
    (f : ℕ) {c : ℕ} {t : Bytes} (d : Bytes)
    → d ≡ c ∷ t
    → IsDigit c
    → decode_value (suc f) d ≡ (decode_str d >>= λ (s, r). ok (str s, r))
unfolding decode_value
value_str f d e h = rw e (ground arith)

pub value_int :
    (f : ℕ) (d : Bytes)
    → decode_value (suc f) (b'i' ∷ d) ≡ (decode_int (b'i' ∷ d) >>= λ (n, r). ok (int n, r))
unfolding decode_value
value_int f d = refl

value_list :
    (f : ℕ) (d : Bytes)
    → decode_value (suc f) (b'l' ∷ d) ≡ (decode_items f d >>= λ (xs, r). ok (list xs, r))
unfolding decode_value
value_list f d = refl

value_dict :
    (f : ℕ) (d : Bytes)
    → decode_value (suc f) (b'd' ∷ d) ≡ (decode_entries f none d >>= λ (es, r). ok (dict es, r))
unfolding decode_value
value_dict f d = refl

items_end : (f : ℕ) (d : Bytes) → decode_items (suc f) (b'e' ∷ d) ≡ ok (nil, d)
unfolding decode_value
items_end f d = refl

entries_end :
    (f : ℕ) (prev : Option Bytes) (d : Bytes) → decode_entries (suc f) prev (b'e' ∷ d) ≡ ok (end, d)
unfolding decode_value
entries_end f prev d = refl

items_step :
    (f : ℕ) {c : ℕ} {t : Bytes} (d : Bytes)
    → d ≡ c ∷ t
    → c ≢ b'e'
    → decode_items (suc f) d
      ≡ (decode_value f d >>= λ (v, r). decode_items f r >>= λ (xs, r'). ok (cons v xs, r'))
unfolding decode_value
items_step f {c} d e h = rw (e, ne→==_false c b'e' h)

entries_step :
    (f : ℕ) (prev : Option Bytes) {c : ℕ} {t : Bytes} (d : Bytes) {k r : Bytes}
    → d ≡ c ∷ t
    → c ≢ b'e'
    → decode_str d ≡ ok (k, r)
    → out_of_order prev k ≡ false
    → decode_entries (suc f) prev d ≡ (
        decode_value f r >>= λ (v, r').
        decode_entries f (some k) r' >>= λ (es, r''). ok (entry k v es, r''))
unfolding decode_value
entries_step f prev {c} d e h key order = rw (e, ne→==_false c b'e' h, rw e at key, order)

-- With fuel above twice the text, the decoder reads the text off the front of any input.
mutual
  unfolding encode

  read_value :
      (v : Value) (f : ℕ) (rest : Bytes)
      → IsCanonical v
      → length (encode v) < 2 ^ 63
      → 2 * length (encode v) < f
      → decode_value f (encode v ++ rest) ≡ ok (v, rest)
  read_value v zero rest h fits fuel = absurd (omega arith)
  read_value (str s) (suc f) rest h fits fuel =
      let (c, t, e, d) = encode_str-Begins s in
      value_str f _ (ap (λ x. x ++ rest) e) d
      ∙ ap (λ x. x >>= λ (s', r). ok (str s', r)) (decode_str-encode_str s rest fits)
  read_value (int n) (suc f) rest h fits fuel =
      rw (value_int, append_assoc, decode_int-append_int n rest h)
  read_value (list xs) (suc f) rest h fits fuel =
      rw (value_list, append_assoc, read_items xs f rest h (omega lengths) (omega lengths))
  read_value (dict es) (suc f) rest h fits fuel =
      let sorted = ap (λ m. length (write_entries m)) (sort-ascending none es h) in
      rw (
        value_dict,
        append_assoc,
        sort-ascending none es h,
        read_entries none es f rest h (omega (lengths, sorted)) (omega (lengths, sorted)),
      )

  read_items :
      (xs : Items) (f : ℕ) (rest : Bytes)
      → AreCanonical xs
      → length (encode_items xs) < 2 ^ 63
      → 2 * length (encode_items xs) + 2 < f
      → decode_items f (encode_items xs ++ b'e' ∷ rest) ≡ ok (xs, rest)
  read_items xs zero rest h fits fuel = absurd (omega arith)
  read_items nil (suc f) rest h fits fuel = items_end f rest
  read_items (cons v xs) (suc f) rest h fits fuel =
      let (c, t, e, ne) = encode-Begins v in
      let size = ap length e in
      rw (
        append_assoc,
        items_step f _ (ap (λ x. x ++ (encode_items xs ++ b'e' ∷ rest)) e) ne,
        read_value v f _ h.0 (omega lengths) (omega lengths),
        read_items xs f rest h.1 (omega lengths) (omega lengths),
      )

  read_entries :
      (prev : Option Bytes) (es : Entries) (f : ℕ) (rest : Bytes)
      → IsAscending prev es
      → length (write_entries (encode_entries es)) < 2 ^ 63
      → 2 * length (write_entries (encode_entries es)) + 2 < f
      → decode_entries f prev (write_entries (encode_entries es) ++ b'e' ∷ rest) ≡ ok (es, rest)
  read_entries prev es zero rest h fits fuel = absurd (omega arith)
  read_entries prev end (suc f) rest h fits fuel = entries_end f prev rest
  read_entries prev (entry k v es) (suc f) rest h fits fuel =
      let (c, t, e, d) = encode_str-Begins k in
      let more = encode v ++ (write_entries (encode_entries es) ++ b'e' ∷ rest) in
      let key = decode_str-encode_str k more (omega lengths) in
      let size = ap length e in
      rw (
        append_assoc,
        append_assoc,
        entries_step f prev _ (ap (λ x. x ++ more) e) (omega arith) key h.0,
        read_value v f _ h.1 (omega lengths) (omega lengths),
        read_entries (some k) es f rest h.2 (omega lengths) (omega lengths),
      )

-- Any canonical value that fits in memory decodes from its encoding to itself.
pub decode-encode :
    (v : Value) → IsCanonical v → length (encode v) < 2 ^ 63 → decode (encode v) ≡ ok v
unfolding decode
decode-encode v h fits =
    let whole = read_value v (fuel_for (encode v)) [] h fits (omega arith) in
    rw (rw append-nil at whole)

-- So does `DecodeFirst`, whatever follows the encoding, and it counts the encoding's bytes.
pub decode_first-encode :
    (v : Value) (rest : Bytes)
    → IsCanonical v
    → length (encode v) < 2 ^ 63
    → decode_first (encode v ++ rest) ≡ ok (v, length (encode v))
unfolding decode_first
decode_first-encode v rest h fits =
    rw (read_value v (fuel_for (encode v ++ rest)) rest h fits (omega lengths))
      (ap (λ n. ok (v, n)) (omega lengths))

-- Each entry of a dict with the very bytes of its value.
abbrev pub raw_entries : Entries → RawDict
raw_entries end = []
raw_entries (entry k v es) = (k, record { val = v; raw = encode v }) ∷ raw_entries es

raw_step :
    (f : ℕ) (prev : Option Bytes) {c : ℕ} {t : Bytes} (d : Bytes) {k r : Bytes}
    → d ≡ c ∷ t
    → c ≢ b'e'
    → decode_str d ≡ ok (k, r)
    → out_of_order prev k ≡ false
    → decode_raw_entries (suc f) prev d ≡ (
        decode_value f r >>= λ (v, r'). decode_raw_entries f (some k) r' >>= λ m.
        ok ((k, record { val = v; raw = take (length r - length r') r }) ∷ m))
unfolding decode_raw_entries
raw_step f prev {c} d e h key order = rw (e, ne→==_false c b'e' h, rw e at key, order)

taken : (xs ys : Bytes) → take (length (xs ++ ys) - length ys) (xs ++ ys) ≡ xs
taken xs ys =
    let e : length (xs ++ ys) - length ys ≡ length xs = omega lengths in rw (e, take-append)

read_raw_entries :
    (prev : Option Bytes) (es : Entries) (f : ℕ) (rest : Bytes)
    → IsAscending prev es
    → length (write_entries (encode_entries es)) < 2 ^ 63
    → 2 * length (write_entries (encode_entries es)) + 2 < f
    → decode_raw_entries f prev (write_entries (encode_entries es) ++ b'e' ∷ rest)
      ≡ ok (raw_entries es)
unfolding encode
read_raw_entries prev es zero rest h fits fuel = absurd (omega arith)
read_raw_entries prev end (suc f) rest h fits fuel = unfold decode_raw_entries in refl
read_raw_entries prev (entry k v es) (suc f) rest h fits fuel =
    let (c, t, e, d) = encode_str-Begins k in
    let more = write_entries (encode_entries es) ++ b'e' ∷ rest in
    let key = decode_str-encode_str k (encode v ++ more) (omega lengths) in
    let size = ap length e in
    rw (
      append_assoc,
      append_assoc,
      raw_step f prev _ (ap (λ x. x ++ (encode v ++ more)) e) (omega arith) key h.0,
      read_value v f _ h.1 (omega lengths) (omega lengths),
      read_raw_entries (some k) es f rest h.2 (omega lengths) (omega lengths),
      taken (encode v) more,
    )

-- `DecodeDictRaw` on an encoded dict gives each key the value and the bytes of its encoding.
pub decode_dict_raw-encode :
    (es : Entries) (rest : Bytes)
    → IsCanonical (dict es)
    → length (encode (dict es)) < 2 ^ 63
    → decode_dict_raw (encode (dict es) ++ rest) ≡ ok (raw_entries es)
unfolding decode_dict_raw encode
decode_dict_raw-encode es rest h fits =
    let sorted = ap (λ m. length (write_entries m)) (sort-ascending none es h) in
    let whole = length-append_bytes (write_entries (encode_entries es)) (b'e' ∷ rest) in
    rw (append_assoc, sort-ascending none es h)
      (read_raw_entries none es _ rest h (omega (lengths, sorted)) (omega (arith, whole)))
