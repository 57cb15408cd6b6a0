-- ===== src/Bencode/Decode.antt =====
-- `Decode` and the functions below it (bencode.go, lines 102 to 348).
use project_based_learning.Base.{
  ℕ, zero, suc, ◌+◌, ◌-◌, ◌*◌, ◌^◌, Bool, false, ◌&&◌, not, Option, none, some, List, [], ◌∷◌, leb,
  ltb, ◌==◌, if◌then◌else◌, length, take, drop, Bytes, lex_lt, ℤ, pos, negsuc,
}
use project_based_learning.Bencode.Decimal.{is_digit, parse_int}
use project_based_learning.Bencode.Value.{
  Value, Items, Entries, str, int, list, dict, nil, cons, end, entry,
}
use project_based_learning.Bencode.Outcome.{
  Outcome, ok, err, panic, out_of_fuel, unexpected_end, invalid_format, ◌>>=◌,
}

-- The loop that looks for the colon: its index, counted from `i`.
abbrev pub find_colon : ℕ → Bytes → Outcome ℕ
find_colon i [] = err invalid_format
find_colon i (b ∷ d) =
    let rest = find_colon (i + 1) d in
    if b == b':' then ok i else if is_digit b then rest else err invalid_format

-- `start + int(length)` as an int of 64 bits: a sum of 2 ^ 63 or more is negative, and so passes
-- the test `end > len(data)`; the slice expression then panics. (A digit string has no sign, so
-- the parsed length is not negative.)
unfoldable pub slice_str : Bytes → ℕ → ℕ → Outcome (Bytes × Bytes)
slice_str d start n =
    if leb (2 ^ 63) (start + n)
    then panic
    else if ltb (length d) (start + n)
    then err unexpected_end
    else ok (take n (drop start d), drop (start + n) d)

unfoldable pub cut_str : Bytes → ℕ → Option ℤ → Outcome (Bytes × Bytes)
cut_str d colon none = err invalid_format
cut_str d colon (some (pos n)) = slice_str d (colon + 1) n
cut_str d colon (some (negsuc n)) = panic

unfoldable pub decode_str : Bytes → Outcome (Bytes × Bytes)
decode_str d = do colon ← find_colon 0 d; cut_str d colon (parse_int (take colon d))

-- The loop that looks for the closing `e`.
abbrev pub find_e : ℕ → Bytes → Option ℕ
find_e i [] = none
find_e i (b ∷ d) = let rest = find_e (i + 1) d in if b == b'e' then some i else rest

-- `len(numStr) > 1 && numStr[0] == '0'`
abbrev pub leading_zero : Bytes → Bool
leading_zero (c ∷ d ∷ s) = c == b'0'
leading_zero _ = false

-- `numStr == "-0"`
abbrev pub negative_zero : Bytes → Bool
negative_zero (c ∷ d ∷ []) = c == b'-' && d == b'0'
negative_zero _ = false

abbrev pub number : Option ℤ → Bytes → Outcome (ℤ × Bytes)
number none rest = err invalid_format
number (some n) rest = ok (n, rest)

unfoldable pub cut_int : Bytes → Option ℕ → Outcome (ℤ × Bytes)
cut_int d none = err invalid_format
cut_int d (some e) =
    let num_str = take (e - 1) (drop 1 d) in
    if leading_zero num_str
    then err invalid_format
    else if negative_zero num_str
    then err invalid_format
    else number (parse_int num_str) (drop (e + 1) d)

unfoldable pub decode_int : Bytes → Outcome (ℤ × Bytes)
decode_int d = if ltb (length d) 3 then err unexpected_end else cut_int d (find_e 1 (drop 1 d))

-- `!first && keyStr <= prevKey`; the previous key is none at the first.
abbrev pub out_of_order : Option Bytes → Bytes → Bool
out_of_order none k = false
out_of_order (some p) k = not (lex_lt p k)

-- What a call leaves of the input is no structural part of it, so each call costs a unit of fuel.
-- A key that passes the order test is new to the dict, so its write adds an entry.
unfoldable mutual
  pub decode_value : ℕ → Bytes → Outcome (Value × Bytes)
  decode_value zero d = out_of_fuel
  decode_value (suc f) [] = err unexpected_end
  decode_value (suc f) (c ∷ d) =
      let as_list = decode_items f d >>= λ (xs, r). ok (list xs, r) in
      let as_dict = decode_entries f none d >>= λ (es, r). ok (dict es, r) in
      if c == b'i'
      then decode_int (c ∷ d) >>= (λ (n, r). ok (int n, r))
      else if c == b'l'
      then as_list
      else if c == b'd'
      then as_dict
      else if is_digit c
      then decode_str (c ∷ d) >>= (λ (s, r). ok (str s, r))
      else err invalid_format

  pub decode_items : ℕ → Bytes → Outcome (Items × Bytes)
  decode_items zero d = out_of_fuel
  decode_items (suc f) [] = err unexpected_end
  decode_items (suc f) (c ∷ d) =
      let more = do (v, r) ← decode_value f (c ∷ d); (xs, r') ← decode_items f r; ok (cons v xs, r')
      in if c == b'e' then ok (nil, d) else more

  pub decode_entries : ℕ → Option Bytes → Bytes → Outcome (Entries × Bytes)
  decode_entries zero prev d = out_of_fuel
  decode_entries (suc f) prev [] = err unexpected_end
  decode_entries (suc f) prev (c ∷ d) =
      let more = do
        (k, r) ← decode_str (c ∷ d)
        let value_on = do
          (v, r') ← decode_value f r
          (es, r'') ← decode_entries f (some k) r'
          ok (entry k v es, r'')
        if out_of_order prev k then err invalid_format else value_on
      in if c == b'e' then ok (end, d) else more

-- Enough fuel for every input: a call uses a byte at least, or is a first call on what it got.
abbrev pub fuel_for : Bytes → ℕ
fuel_for d = suc (suc (2 * length d))

abbrev pub finish : Value → Bytes → Outcome Value
finish v [] = ok v
finish v (_ ∷ _) = err invalid_format

unfoldable pub decode : Bytes → Outcome Value
unfolding decode_value
decode d = do (v, rest) ← decode_value (fuel_for d) d; finish v rest

-- `DecodeFirst`: the value and the number of bytes that it took.
unfoldable pub decode_first : Bytes → Outcome (Value × ℕ)
decode_first d = do (v, rest) ← decode_value (fuel_for d) d; ok (v, length d - length rest)

pub record RawValue : Type 0 where
  pub val : Value
  pub raw : Bytes

unfoldable pub decode_raw : Bytes → Outcome RawValue
decode_raw d = do
  (v, rest) ← decode_value (fuel_for d) d
  ok (record { val = v; raw = take (length d - length rest) d })

-- The map from keys to raw values, in the order in which the keys come.
abbrev pub RawDict : Type 0
RawDict = List (Bytes × RawValue)

-- The loop of `DecodeDictRaw`; it ends at the closing `e`, whatever follows.
unfoldable pub decode_raw_entries : ℕ → Option Bytes → Bytes → Outcome RawDict
decode_raw_entries zero prev d = out_of_fuel
decode_raw_entries (suc f) prev [] = err unexpected_end
decode_raw_entries (suc f) prev (c ∷ d) =
    let more = do
      (k, r) ← decode_str (c ∷ d)
      let value_on = do
        (v, r') ← decode_value f r
        m ← decode_raw_entries f (some k) r'
        ok ((k, record { val = v; raw = take (length r - length r') r }) ∷ m)
      if out_of_order prev k then err invalid_format else value_on
    in if c == b'e' then ok [] else more

unfoldable pub decode_dict_raw : Bytes → Outcome RawDict
decode_dict_raw [] = err invalid_format
decode_dict_raw (c ∷ d) =
    if c == b'd' then decode_raw_entries (fuel_for (c ∷ d)) none d else err invalid_format
