-- ===== src/Bencode/Texts.antt =====
-- `decodeString` and `decodeInt` on what the encoder writes.
use project_based_learning.Base.{
  ℕ, suc, ◌+◌, ◌^◌, ◌<◌, ◌≡◌, ◌≢◌, refl, ap, false, some, [], ◌∷◌, ◌++◌, append_assoc, arith,
  length, length-append, take-append, drop-append, drop-append_cons, drop-add, Bytes, All, ℤ, pos,
  negsuc, IsInt64,
}
use native.Mathlib.Nat.{zero-add}
use project_based_learning.Bencode.Decimal.{
  IsDigit, decimal, append_int, parse_int, decimal-IsPrint, parse_int-append_int,
}
use project_based_learning.Bencode.Value.{encode_str}
use project_based_learning.Bencode.Outcome.{ok}
use project_based_learning.Bencode.Decode.{
  find_colon, slice_str, cut_str, decode_str, find_e, leading_zero, negative_zero, cut_int,
  decode_int,
}

pub decimal-digits : (n : ℕ) → All IsDigit (decimal n)
decimal-digits n = let p = decimal-IsPrint n in rw p.split (p.head_digit, p.rest_digits)

pub find_colon-digits :
    (i : ℕ) (ds r : Bytes) → All IsDigit ds → find_colon i (ds ++ b':' ∷ r) ≡ ok (i + length ds)
find_colon-digits i [] r h = ap ok (omega arith)
find_colon-digits i (d ∷ ds) r h = ground (arith, find_colon-digits (i + 1) ds r h.1)

-- The bytes of a string are sliced off behind the colon.
slice-append :
    (ds s rest : Bytes)
    → length ds + 1 + length s < 2 ^ 63
    → slice_str (ds ++ b':' ∷ (s ++ rest)) (length ds + 1) (length s) ≡ ok (s, rest)
unfolding slice_str
slice-append ds s rest h = ground (
  arith,
  length-append ds (b':' ∷ (s ++ rest)),
  length-append s rest,
  drop-append_cons ds b':' (s ++ rest),
  drop-add (length ds + 1) (length s) (ds ++ b':' ∷ (s ++ rest)),
  take-append s rest,
  drop-append s rest,
)

-- An encoded string is read back, whatever follows it.
pub decode_str-encode_str :
    (s rest : Bytes)
    → length (encode_str s) < 2 ^ 63
    → decode_str (encode_str s ++ rest) ≡ ok (s, rest)
unfolding decode_str encode_str cut_str append_int
decode_str-encode_str s rest h =
    let len = length-append (decimal (length s)) (b':' ∷ s) in
    rw
      (
        append_assoc,
        find_colon-digits 0 (decimal (length s)) (s ++ rest) (decimal-digits (length s)),
        zero-add,
        take-append,
        parse_int-append_int (pos (length s)) (omega (arith, len)),
      )
      (slice-append (decimal (length s)) s rest (omega (arith, len)))

pub find_e-lacks :
    (i : ℕ) (s r : Bytes) → All (λ c. c ≢ b'e') s → find_e i (s ++ b'e' ∷ r) ≡ some (i + length s)
find_e-lacks i [] r h = ap some (omega arith)
find_e-lacks i (c ∷ s) r h = ground (arith, find_e-lacks (i + 1) s r h.1)

pub digits-lack_e : (s : Bytes) → All IsDigit s → All (λ c. c ≢ b'e') s
digits-lack_e [] h = tt
digits-lack_e (c ∷ s) h = (omega arith, digits-lack_e s h.1)

-- What `decodeInt` asks of the text between `i` and `e`.
pub record IsPlain (s : Bytes) : Type 0 where
  pub lacks_e : All (λ c. c ≢ b'e') s
  pub nonempty : 0 < length s
  pub no_leading_zero : leading_zero s ≡ false
  pub no_negative_zero : negative_zero s ≡ false

digits-IsPlain :
    (c : ℕ) (s : Bytes) → IsDigit c → All IsDigit s → (c ≡ b'0' → s ≡ []) → IsPlain (c ∷ s)
digits-IsPlain c [] h hs z = record {
  lacks_e = (omega arith, tt);
  nonempty = omega arith;
  no_leading_zero = refl;
  no_negative_zero = refl;
}
digits-IsPlain c (d ∷ []) h hs z = record {
  lacks_e = (omega arith, digits-lack_e (d ∷ []) hs);
  nonempty = omega arith;
  no_leading_zero = ground (arith, z);
  no_negative_zero = ground arith;
}
digits-IsPlain c (d ∷ e ∷ s) h hs z = record {
  lacks_e = (omega arith, digits-lack_e (d ∷ e ∷ s) hs);
  nonempty = omega arith;
  no_leading_zero = ground (arith, z);
  no_negative_zero = refl;
}

minus-IsPlain : (c : ℕ) (s : Bytes) → IsDigit c → All IsDigit s → c ≢ b'0' → IsPlain (b'-' ∷ c ∷ s)
minus-IsPlain c [] h hs z = record {
  lacks_e = (omega arith, (omega arith, tt));
  nonempty = omega arith;
  no_leading_zero = refl;
  no_negative_zero = ground arith;
}
minus-IsPlain c (d ∷ s) h hs z = record {
  lacks_e = (omega arith, (omega arith, digits-lack_e (d ∷ s) hs));
  nonempty = omega arith;
  no_leading_zero = refl;
  no_negative_zero = refl;
}

append_int-IsPlain : (z : ℤ) → IsPlain (append_int z)
unfolding append_int
append_int-IsPlain (pos n) =
    let p = decimal-IsPrint n in
    rw p.split (digits-IsPlain _ _ p.head_digit p.rest_digits (λ e. (p.head_zero e).1))
append_int-IsPlain (negsuc n) =
    let p = decimal-IsPrint (suc n) in
    rw p.split
      (minus-IsPlain _ _ p.head_digit p.rest_digits (λ e. omega (arith, (p.head_zero e).0)))

-- A plain text between `i` and `e` is the integer that it parses to.
pub decode_int-plain :
    (s rest : Bytes) (z : ℤ)
    → IsPlain s
    → parse_int s ≡ some z
    → decode_int (b'i' ∷ (s ++ b'e' ∷ rest)) ≡ ok (z, rest)
unfolding decode_int cut_int
decode_int-plain s rest z p h = ground (
  arith,
  length-append s (b'e' ∷ rest),
  p.nonempty,
  find_e-lacks 1 s rest p.lacks_e,
  take-append s (b'e' ∷ rest),
  drop-append_cons s b'e' rest,
  p.no_leading_zero,
  p.no_negative_zero,
)

-- An encoded int64 is read back, whatever follows it.
pub decode_int-append_int :
    (z : ℤ) (rest : Bytes)
    → IsInt64 z
    → decode_int (b'i' ∷ (append_int z ++ b'e' ∷ rest)) ≡ ok (z, rest)
decode_int-append_int z rest h =
    decode_int-plain (append_int z) rest z (append_int-IsPlain z) (parse_int-append_int z h)
