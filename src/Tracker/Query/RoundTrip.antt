-- ===== src/Tracker/Query/RoundTrip.antt =====
-- Percent-encoded bytes decode to themselves (RFC 3986).
use project_based_learning.Base.{
  ℕ, zero, suc, ◌+◌, ◌-◌, ◌*◌, ◌/◌, ◌%◌, ◌≤◌, ◌<◌, ◌≡◌, ◌≢◌, refl, true, false, [], ◌∷◌, ltb, ◌==◌,
  if◌then◌else◌, arith, length, Bytes, IsByte, All, Bool-cases, inl, inr,
}
use project_based_learning.Tracker.Query.{is_unreserved, hex_digit, percent_encode_bytes}

abbrev pub hex_value : ℕ → ℕ
hex_value h = if ltb h 58 then h - 48 else h - 55

-- Fuel of the length is enough.
unfoldable pub percent_decode : ℕ → Bytes → Bytes
percent_decode zero s = []
percent_decode (suc fuel) [] = []
percent_decode (suc fuel) (c ∷ []) = c ∷ []
percent_decode (suc fuel) (c ∷ h ∷ []) = c ∷ percent_decode fuel (h ∷ [])
percent_decode (suc fuel) (c ∷ h ∷ l ∷ s) =
    let escaped = (hex_value h * 16 + hex_value l) ∷ percent_decode fuel s in
    let plain = c ∷ percent_decode fuel (h ∷ l ∷ s) in if c == 37 then escaped else plain

hex_value-digit : (d : ℕ) → d < 16 → hex_value (hex_digit d) ≡ d
hex_value-digit d h = ground arith

plain_step :
    (fuel c : ℕ) (s : Bytes)
    → c ≢ 37
    → length s ≤ fuel
    → percent_decode (suc fuel) (c ∷ s) ≡ c ∷ percent_decode fuel s
unfolding percent_decode
plain_step zero c [] h fits = refl
plain_step (suc fuel) c [] h fits = refl
plain_step fuel c (a ∷ []) h fits = refl
plain_step fuel c (a ∷ b ∷ s) h fits = let e : (c == 37) ≡ false = ground (arith, h) in rw e refl

escaped_step :
    (fuel c : ℕ) (s : Bytes)
    → IsByte c
    → percent_decode (suc fuel) (37 ∷ hex_digit (c / 16) ∷ hex_digit (c % 16) ∷ s)
      ≡ c ∷ percent_decode fuel s
unfolding percent_decode
escaped_step fuel c s byte =
    let high = hex_value-digit (c / 16) (omega (arith, byte)) in
    let low = hex_value-digit (c % 16) (omega arith) in
    let whole : c / 16 * 16 + c % 16 ≡ c = omega arith in rw (high, low, whole) refl

unreserved-ne : (c : ℕ) → is_unreserved c ≡ true → c ≢ 37
unfolding is_unreserved
unreserved-ne c h = ground arith

-- Any bytes are read back from their percent-encoding.
pub decode-percent_encode :
    (s : Bytes) (fuel : ℕ)
    → All IsByte s
    → length (percent_encode_bytes s) ≤ fuel
    → percent_decode fuel (percent_encode_bytes s) ≡ s
unfolding percent_encode_bytes
decode-percent_encode [] zero bytes fits = unfold percent_decode in refl
decode-percent_encode [] (suc fuel) bytes fits = unfold percent_decode in refl
decode-percent_encode (c ∷ s) zero bytes fits = absurd (elim (Bool-cases (is_unreserved c)) [
  | inl plain ↦ let f = rw plain at fits in omega arith
  | inr escaped ↦ let f = rw escaped at fits in omega arith
])
decode-percent_encode (c ∷ s) (suc fuel) bytes fits = elim (Bool-cases (is_unreserved c)) [
  | inl plain ↦
      let f = rw plain at fits in
      rw
        (
          plain,
          plain_step fuel c (percent_encode_bytes s) (unreserved-ne c plain) (omega arith),
          decode-percent_encode s fuel bytes.1 (omega arith),
        )
        refl
  | inr escaped ↦
      let f = rw escaped at fits in
      rw
        (
          escaped,
          escaped_step fuel c (percent_encode_bytes s) bytes.0,
          decode-percent_encode s fuel bytes.1 (omega arith),
        )
        refl
]
