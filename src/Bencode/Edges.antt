-- ===== src/Bencode/Edges.antt =====
-- Where the decoder leaves the format: a string length near the top of int64, and leading zeros
-- behind a minus sign.
use project_based_learning.Base.{
  ℕ, ◌+◌, ◌^◌, ◌≤◌, ◌<◌, ◌≡◌, refl, some, [], ◌∷◌, ◌++◌, arith, length, take-append, Bytes, All,
  pos,
}
use native.Mathlib.Nat.{zero-add}
use project_based_learning.Bencode.Decimal.{
  IsDigit, decimal, scan_digits, scan-decimal, decimal-IsPrint, minus, parse_int, parse_magnitude,
}
use project_based_learning.Bencode.Value.{int}
use project_based_learning.Bencode.Outcome.{ok, panic}
use project_based_learning.Bencode.Decode.{slice_str, cut_str, decode_str, decode}
use project_based_learning.Bencode.Texts.{
  IsPlain, decode_int-plain, find_colon-digits, decimal-digits, digits-lack_e,
}
use project_based_learning.Bencode.RoundTrip.{value_str, value_int}

parse_int-digits :
    (c : ℕ) (ds : Bytes) (n : ℕ)
    → All IsDigit (c ∷ ds)
    → scan_digits 0 (c ∷ ds) ≡ some n
    → n < 2 ^ 63
    → parse_int (c ∷ ds) ≡ some (pos n)
unfolding parse_int parse_magnitude
parse_int-digits c ds n h e fits = ground arith

decode_str-overflow :
    (c : ℕ) (ds rest : Bytes) (n : ℕ)
    → All IsDigit (c ∷ ds)
    → scan_digits 0 (c ∷ ds) ≡ some n
    → n < 2 ^ 63
    → 2 ^ 63 ≤ length (c ∷ ds) + 1 + n
    → decode_str ((c ∷ ds) ++ b':' ∷ rest) ≡ panic
unfolding decode_str cut_str
decode_str-overflow c ds rest n h e fits big =
    rw
      (
        find_colon-digits 0 (c ∷ ds) rest h,
        zero-add,
        take-append (c ∷ ds) (b':' ∷ rest),
        parse_int-digits c ds n h e fits,
      )
      (unfold slice_str in ground arith)

-- A text of digits, a colon and anything panics, if the digits spell an int64 so large that the
-- end of the string passes the top of int64.
pub decode-overflow :
    (c : ℕ) (ds rest : Bytes) (n : ℕ)
    → All IsDigit (c ∷ ds)
    → scan_digits 0 (c ∷ ds) ≡ some n
    → n < 2 ^ 63
    → 2 ^ 63 ≤ length (c ∷ ds) + 1 + n
    → decode ((c ∷ ds) ++ b':' ∷ rest) ≡ panic
unfolding decode
decode-overflow c ds rest n h e fits big =
    rw
      (value_str _ ((c ∷ ds) ++ b':' ∷ rest) refl h.0, decode_str-overflow c ds rest n h e fits big)

minus_zero-IsPlain : (n : ℕ) → IsPlain (b'-' ∷ b'0' ∷ decimal n)
minus_zero-IsPlain n =
    let p = decimal-IsPrint n in
    record {
      lacks_e = (omega arith, (omega arith, digits-lack_e (decimal n) (decimal-digits n)));
      nonempty = omega arith;
      no_leading_zero = refl;
      no_negative_zero = rw p.split;
    }

parse_int-minus_zero : (n : ℕ) → n ≤ 2 ^ 63 → parse_int (b'-' ∷ b'0' ∷ decimal n) ≡ some (minus n)
unfolding parse_int parse_magnitude
parse_int-minus_zero n h = rw (scan-decimal n) (ground arith)

-- `i-0`, the digits of any n up to 2 ^ 63, and `e` is accepted, and stands for -n.
pub decode-minus_zero :
    (n : ℕ)
    → n ≤ 2 ^ 63
    → decode (b'i' ∷ b'-' ∷ b'0' ∷ (decimal n ++ b'e' ∷ [])) ≡ ok (int (minus n))
unfolding decode
decode-minus_zero n h = rw (
  value_int,
  decode_int-plain (b'-' ∷ b'0' ∷ decimal n) [] (minus n) (minus_zero-IsPlain n)
      (parse_int-minus_zero n h),
)
