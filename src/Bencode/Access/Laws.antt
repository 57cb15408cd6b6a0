-- ===== src/Bencode/Access/Laws.antt =====
-- Reads of a dict that was decoded from its encoding.
use project_based_learning.Base.{
  ◌^◌, ◌≤◌, ◌<◌, ◌≡◌, refl, ap, Option, none, some, Bool-cases, inl, inr, length, lengths, Bytes,
}
use mathlib.Core.Path.{subst}
use project_based_learning.Base.Wire.{bytes_eq}
use project_based_learning.Bencode.Value.{
  Value, Entries, dict, end, entry, encode, encode_entries, write_entries,
}
use project_based_learning.Bencode.Decode.{RawValue}
use project_based_learning.Bencode.RoundTrip.{IsCanonical, IsAscending, sort-ascending, raw_entries}
use project_based_learning.Bencode.Access.{lookup, raw_lookup}

-- A value with the bytes of its encoding.
abbrev pub with_bytes : Option Value → Option RawValue
with_bytes none = none
with_bytes (some v) = some (record { val = v; raw = encode v })

pub raw_lookup-raw_entries :
    (k : Bytes) (es : Entries) → raw_lookup k (raw_entries es) ≡ with_bytes (lookup k es)
unfolding raw_lookup lookup
raw_lookup-raw_entries k end = refl
raw_lookup-raw_entries k (entry j v es) = elim (Bool-cases (bytes_eq j k)) [
  | inl e ↦ rw e refl
  | inr e ↦ rw e (raw_lookup-raw_entries k es)
]

-- The value of a key in a canonical dict is canonical, and its encoding a part of the dict's.
pub lookup-IsCanonical :
    (k : Bytes) (prev : Option Bytes) (es : Entries) (v : Value)
    → IsAscending prev es
    → lookup k es ≡ some v
    → IsCanonical v × (length (encode v) ≤ length (write_entries (encode_entries es)))
unfolding lookup encode
lookup-IsCanonical k prev end v h e = cc
lookup-IsCanonical k prev (entry j w es) v h e = elim (Bool-cases (bytes_eq j k)) [
  | inl here ↦
      let e' : some w ≡ some v = rw here at e in
      let same : w ≡ v = cc in (subst IsCanonical same h.1, rw (← same) (omega lengths))
  | inr other ↦
      let (c, n) = lookup-IsCanonical k (some j) es v h.2 (rw other at e) in (c, omega (lengths, n))
]

-- So it fits where the dict does.
pub lookup-fits :
    (k : Bytes) (es : Entries) (v : Value)
    → IsCanonical (dict es)
    → length (encode (dict es)) < 2 ^ 63
    → lookup k es ≡ some v
    → IsCanonical v × (length (encode v) < 2 ^ 63)
unfolding encode
lookup-fits k es v h fits e =
    let (c, n) = lookup-IsCanonical k none es v h e in
    let sorted = ap (λ m. length (write_entries m)) (sort-ascending none es h) in
    (c, omega (lengths, n, sorted))
