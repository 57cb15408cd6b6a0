-- ===== src/Bencode/Decimal.antt =====
-- The decimal texts of `strconv.AppendInt` and `strconv.ParseInt` at base 10, as the standard
-- library documents them.
use project_based_learning.Base.{
  ℕ, zero, suc, ◌+◌, ◌-◌, ◌*◌, ◌/◌, ◌%◌, ◌^◌, ◌≤◌, ◌≡◌, refl, ◌∙◌, Bool, ◌&&◌, Option, none, some,
  [], ◌∷◌, ◌++◌, arith, leb, ltb, ◌==◌, if◌then◌else◌, Bytes, All, All-append, Bool-cases, inl, inr,
  ℤ, pos, negsuc, IsInt64,
}

abbrev pub IsDigit : ℕ → Type 0
IsDigit c = (b'0' ≤ c) × (c ≤ b'9')

abbrev pub is_digit : ℕ → Bool
is_digit c = leb b'0' c && leb c b'9'

-- Fuel: each round divides by ten, so a number is enough fuel for itself.
digits : ℕ → ℕ → Bytes
digits zero n = (b'0' + n % 10) ∷ []
digits (suc f) n =
    let front = digits f (n / 10) in
    if ltb n 10 then (b'0' + n) ∷ [] else front ++ ((b'0' + n % 10) ∷ [])

unfoldable pub decimal : ℕ → Bytes
unfolding digits
decimal n = digits n n

unfoldable pub append_int : ℤ → Bytes
append_int (pos n) = decimal n
append_int (negsuc n) = b'-' ∷ decimal (suc n)

-- The number that digits spell behind `n`; none at a byte that is no digit.
abbrev pub scan_digits : ℕ → Bytes → Option ℕ
scan_digits n [] = some n
scan_digits n (c ∷ s) =
    let rest = scan_digits (n * 10 + (c - b'0')) s in if is_digit c then rest else none

abbrev pub in_range : ℕ → (ℕ → ℤ) → Option ℕ → Option ℤ
in_range top sign none = none
in_range top sign (some n) = if ltb top n then none else some (sign n)

abbrev pub minus : ℕ → ℤ
minus zero = pos 0
minus (suc n) = negsuc n

unfoldable pub parse_magnitude : ℕ → (ℕ → ℤ) → Bytes → Option ℤ
parse_magnitude top sign [] = none
parse_magnitude top sign (c ∷ s) = in_range top sign (scan_digits 0 (c ∷ s))

-- An optional sign, one or more digits, and a value that fits 64 bits.
unfoldable pub parse_int : Bytes → Option ℤ
parse_int [] = none
parse_int (c ∷ s) =
    if c == b'-'
    then parse_magnitude (2 ^ 63) minus s
    else if c == b'+'
    then parse_magnitude (2 ^ 63 - 1) pos s
    else parse_magnitude (2 ^ 63 - 1) pos (c ∷ s)

scan-append :
    (n : ℕ) (s t : Bytes) (m : ℕ)
    → scan_digits n s ≡ some m
    → scan_digits n (s ++ t) ≡ scan_digits m t
scan-append n [] t m h = ground arith
scan-append n (c ∷ s) t m h = ground (arith, scan-append (n * 10 + (c - b'0')) s t m)

scan-digits_fuel : (f n : ℕ) → n ≤ f → scan_digits 0 (digits f n) ≡ some n
unfolding digits
scan-digits_fuel zero n h = ground arith
scan-digits_fuel (suc f) n h = ground (
  arith,
  scan-digits_fuel f (n / 10),
  scan-append 0 (digits f (n / 10)) ((b'0' + n % 10) ∷ []) (n / 10),
)

pub scan-decimal : (n : ℕ) → scan_digits 0 (decimal n) ≡ some n
unfolding decimal
scan-decimal n = scan-digits_fuel n n (omega arith)

-- The shape of a print: digits, and the first is a zero only in the print of zero.
pub record IsPrint (n : ℕ) (s : Bytes) : Type 0 where
  pub head : ℕ
  pub rest : Bytes
  pub split : s ≡ head ∷ rest
  pub head_digit : IsDigit head
  pub rest_digits : All IsDigit rest
  pub head_zero : head ≡ b'0' → (n ≡ 0) × (rest ≡ [])

digits-IsPrint : (f n : ℕ) → n ≤ f → IsPrint n (digits f n)
unfolding digits
digits-IsPrint zero n h = record {
  head = b'0' + n % 10;
  rest = [];
  split = refl;
  head_digit = omega arith;
  rest_digits = tt;
  head_zero = λ _. (omega arith, refl);
}
digits-IsPrint (suc f) n h = elim (Bool-cases (ltb n 10)) [
  | inl small ↦ record {
    head = b'0' + n;
    rest = [];
    split = rw small;
    head_digit = ground arith;
    rest_digits = tt;
    head_zero = λ e. (omega arith, refl);
  }
  | inr large ↦
      let front = digits-IsPrint f (n / 10) (omega arith) in
      record {
        head = front.head;
        rest = front.rest ++ (b'0' + n % 10) ∷ [];
        split = rw (large, front.split);
        head_digit = front.head_digit;
        rest_digits =
            All-append _ front.rest ((b'0' + n % 10) ∷ []) front.rest_digits (omega arith);
        head_zero = λ e. absurd (ground (arith, (front.head_zero e).0));
      }
]

pub decimal-IsPrint : (n : ℕ) → IsPrint n (decimal n)
unfolding decimal
decimal-IsPrint n = digits-IsPrint n n (omega arith)

parse_magnitude-decimal :
    (top : ℕ) (sign : ℕ → ℤ) (n : ℕ)
    → n ≤ top
    → parse_magnitude top sign (decimal n) ≡ some (sign n)
unfolding parse_magnitude
parse_magnitude-decimal top sign n h =
    let p = decimal-IsPrint n in rw p.split (rw (rw p.split at (scan-decimal n)) (ground arith))

-- A text that begins with a digit has no sign.
parse_int_unsigned :
    (s : Bytes) {c : ℕ} {t : Bytes}
    → s ≡ c ∷ t
    → IsDigit c
    → parse_int s ≡ parse_magnitude (2 ^ 63 - 1) pos s
unfolding parse_int
parse_int_unsigned s {c} {t} e h = rw e (ground arith)

-- `ParseInt` reads every int64 back from its print.
pub parse_int-append_int : (z : ℤ) → IsInt64 z → parse_int (append_int z) ≡ some z
unfolding append_int
parse_int-append_int (pos n) h =
    let p = decimal-IsPrint n in
    parse_int_unsigned (decimal n) p.split p.head_digit
    ∙ parse_magnitude-decimal (2 ^ 63 - 1) pos n (omega arith)
parse_int-append_int (negsuc n) h =
    unfold parse_int in parse_magnitude-decimal (2 ^ 63) minus (suc n) (omega arith)

in_range-pos : (o : Option ℕ) (z : ℤ) → in_range (2 ^ 63 - 1) pos o ≡ some z → IsInt64 z
in_range-pos none (pos k) h = cc
in_range-pos none (negsuc k) h = cc
in_range-pos (some n) (pos k) h = ground arith
in_range-pos (some n) (negsuc k) h = ground arith

in_range-minus : (o : Option ℕ) (z : ℤ) → in_range (2 ^ 63) minus o ≡ some z → IsInt64 z
in_range-minus none (pos k) h = cc
in_range-minus none (negsuc k) h = cc
in_range-minus (some zero) (pos k) h = ground arith
in_range-minus (some zero) (negsuc k) h = ground arith
in_range-minus (some (suc n)) (pos k) h = ground arith
in_range-minus (some (suc n)) (negsuc k) h = ground arith

magnitude-pos : (s : Bytes) (z : ℤ) → parse_magnitude (2 ^ 63 - 1) pos s ≡ some z → IsInt64 z
unfolding parse_magnitude
magnitude-pos [] z h = cc
magnitude-pos (c ∷ s) z h = in_range-pos (scan_digits 0 (c ∷ s)) z h

magnitude-minus : (s : Bytes) (z : ℤ) → parse_magnitude (2 ^ 63) minus s ≡ some z → IsInt64 z
unfolding parse_magnitude
magnitude-minus [] z h = cc
magnitude-minus (c ∷ s) z h = in_range-minus (scan_digits 0 (c ∷ s)) z h

pub parse_int-IsInt64 : (s : Bytes) (z : ℤ) → parse_int s ≡ some z → IsInt64 z
unfolding parse_int
parse_int-IsInt64 [] z h = cc
parse_int-IsInt64 (c ∷ s) z h =
    ground (arith, magnitude-minus s z, magnitude-pos s z, magnitude-pos (c ∷ s) z)
