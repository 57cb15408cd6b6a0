-- ===== src/Bencode/Sound.antt =====
-- The fuel of the decoder suffices for every input, and what it returns is a canonical value.
use project_based_learning.Base.{
  ℕ, zero, suc, ◌+◌, ◌-◌, ◌*◌, ◌^◌, ◌<◌, ◌≡◌, refl, Option, none, some, [], ◌∷◌, arith, length,
  take, drop, length-drop, Bytes, ℤ, pos, negsuc, IsInt64, ◌==◌, leb, ltb,
}
use project_based_learning.Bencode.Decimal.{is_digit, parse_int, parse_int-IsInt64}
use project_based_learning.Bencode.Value.{Value}
use project_based_learning.Bencode.Outcome.{
  Ensures, holds, rejected, panicked, Ensures-if, Ensures-bind,
}
use project_based_learning.Bencode.Decode.{
  find_colon, slice_str, cut_str, decode_str, find_e, leading_zero, negative_zero, number, cut_int,
  decode_int, out_of_order, decode_value, decode_items, decode_entries, fuel_for, finish, decode,
}
use project_based_learning.Bencode.RoundTrip.{IsCanonical, AreCanonical, IsAscending}

slice_str-Ensures :
    (d : Bytes) (start n : ℕ)
    → 0 < start
    → Ensures (λ (s, r). length r < length d) (slice_str d start n)
unfolding slice_str
slice_str-Ensures d start n h =
    Ensures-if (leb (2 ^ 63) (start + n)) (λ _. panicked)
      λ _.
        Ensures-if (ltb (length d) (start + n)) (λ _. rejected)
          λ e. holds (ground (arith, length-drop (start + n) d))

cut_str-Ensures :
    (d : Bytes) (colon : ℕ) (z : Option ℤ)
    → Ensures (λ (s, r). length r < length d) (cut_str d colon z)
unfolding cut_str
cut_str-Ensures d colon none = rejected
cut_str-Ensures d colon (some (pos n)) = slice_str-Ensures d (colon + 1) n (omega arith)
cut_str-Ensures d colon (some (negsuc n)) = panicked

find_colon-Ensures : (i : ℕ) (d : Bytes) → Ensures (λ _. Unit {0}) (find_colon i d)
find_colon-Ensures i [] = rejected
find_colon-Ensures i (b ∷ d) =
    Ensures-if (b == b':') (λ _. holds tt)
      λ _. Ensures-if (is_digit b) (λ _. find_colon-Ensures (i + 1) d) (λ _. rejected)

decode_str-Ensures : (d : Bytes) → Ensures (λ (s, r). length r < length d) (decode_str d)
unfolding decode_str
decode_str-Ensures d = Ensures-bind (find_colon-Ensures 0 d) λ colon _. cut_str-Ensures d colon _

number-Ensures :
    (s rest d : Bytes)
    → length rest < length d
    → Ensures (λ (z, r). IsInt64 z × (length r < length d)) (number (parse_int s) rest)
number-Ensures s rest d h = go (parse_int s) refl
  where
    go :
        (o : Option ℤ)
        → parse_int s ≡ o
        → Ensures (λ (z, r). IsInt64 z × (length r < length d)) (number o rest)
    go none e = rejected
    go (some z) e = holds (parse_int-IsInt64 s z e, h)

cut_int-Ensures :
    (d : Bytes) (o : Option ℕ)
    → 0 < length d
    → Ensures (λ (z, r). IsInt64 z × (length r < length d)) (cut_int d o)
unfolding cut_int
cut_int-Ensures d none h = rejected
cut_int-Ensures d (some e) h =
    let s = take (e - 1) (drop 1 d) in
    Ensures-if (leading_zero s) (λ _. rejected)
      λ _.
        Ensures-if (negative_zero s) (λ _. rejected)
          λ _. number-Ensures s (drop (e + 1) d) d (omega (arith, length-drop (e + 1) d))

decode_int-Ensures :
    (d : Bytes) → Ensures (λ (z, r). IsInt64 z × (length r < length d)) (decode_int d)
unfolding decode_int
decode_int-Ensures d =
    Ensures-if (ltb (length d) 3) (λ _. rejected)
      λ e. cut_int-Ensures d (find_e 1 (drop 1 d)) (ground arith)

-- One induction on the fuel: each value takes a byte at least, so the fuel stays above twice the
-- length of what is left.
mutual
  unfolding decode_value

  value-Ensures :
      (f : ℕ) (d : Bytes)
      → 2 * length d < f
      → Ensures (λ (v, r). IsCanonical v × (length r < length d)) (decode_value f d)
  value-Ensures zero d h = absurd (omega arith)
  value-Ensures (suc f) [] h = rejected
  value-Ensures (suc f) (c ∷ d) h =
      Ensures-if (c == b'i') (λ _. Ensures-bind (decode_int-Ensures (c ∷ d)) λ _ p. holds p)
        λ _.
          Ensures-if (c == b'l')
            (λ _. Ensures-bind (items-Ensures f d (omega arith)) λ _ p. holds (p.0, omega arith))
            λ _.
              Ensures-if (c == b'd')
                (λ _.
                  Ensures-bind (entries-Ensures f none d (omega arith))
                    λ _ p. holds (p.0, omega arith))
                λ _.
                  Ensures-if (is_digit c)
                    (λ _. Ensures-bind (decode_str-Ensures (c ∷ d)) λ _ p. holds (tt, p))
                    (λ _. rejected)

  items-Ensures :
      (f : ℕ) (d : Bytes)
      → 2 * length d + 1 < f
      → Ensures (λ (xs, r). AreCanonical xs × (length r < length d)) (decode_items f d)
  items-Ensures zero d h = absurd (omega arith)
  items-Ensures (suc f) [] h = rejected
  items-Ensures (suc f) (c ∷ d) h =
      Ensures-if (c == b'e') (λ _. holds (tt, omega arith))
        λ _. Ensures-bind (value-Ensures f (c ∷ d) (omega arith)) λ (v, r) p.
          Ensures-bind (items-Ensures f r (omega arith)) λ _ q. holds ((p.0, q.0), omega arith)

  entries-Ensures :
      (f : ℕ) (prev : Option Bytes) (d : Bytes)
      → 2 * length d + 1 < f
      → Ensures (λ (es, r). IsAscending prev es × (length r < length d)) (decode_entries f prev d)
  entries-Ensures zero prev d h = absurd (omega arith)
  entries-Ensures (suc f) prev [] h = rejected
  entries-Ensures (suc f) prev (c ∷ d) h =
      Ensures-if (c == b'e') (λ _. holds (tt, omega arith))
        λ _. Ensures-bind (decode_str-Ensures (c ∷ d)) λ (k, r) p.
          Ensures-if (out_of_order prev k) (λ _. rejected)
            λ order. Ensures-bind (value-Ensures f r (omega arith)) λ (v, r') q.
              Ensures-bind (entries-Ensures f (some k) r' (omega arith))
                λ _ s. holds ((order, q.0, s.0), omega arith)

-- On every input the decoder comes to an end within its fuel, and each value that it returns is
-- canonical: its dict keys are distinct and ascending, and its integers fit 64 bits.
pub decode-Ensures : (d : Bytes) → Ensures IsCanonical (decode d)
unfolding decode
decode-Ensures d =
    Ensures-bind (value-Ensures (fuel_for d) d (omega arith)) λ (v, r) p. finish-Ensures v r p.0
  where
    finish-Ensures : (v : Value) (r : Bytes) → IsCanonical v → Ensures IsCanonical (finish v r)
    finish-Ensures v [] h = holds h
    finish-Ensures v (_ ∷ _) h = rejected
