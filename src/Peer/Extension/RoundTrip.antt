-- ===== src/Peer/Extension/RoundTrip.antt =====
-- Handshakes of extensions read back from their message.
use project_based_learning.Base.{
  ◌^◌, ◌<◌, ◌≤◌, ◌≡◌, refl, ℤ, pos, ltb_ℤ, IsInt64, false, Bool-cases, inl, inr, List, [], ◌∷◌,
  arith, ltb, if◌then◌else◌, length, lengths, Bytes,
}
use project_based_learning.Base.Outcome.{ok}
use project_based_learning.Bencode.Value.{Entries, dict, encode}
use project_based_learning.Bencode.Access.{lookup}
use project_based_learning.Bencode.RoundTrip.{IsCanonical, decode-encode}
use project_based_learning.Peer.Extension.{
  put_ids, read_ids, handshake_entries, new_ext_handshake, parse_ext_handshake,
}

read_ids-put : (exts : List (Bytes × ℤ)) → read_ids (put_ids exts) ≡ exts
unfolding read_ids put_ids
read_ids-put [] = refl
read_ids-put ((name, id) ∷ exts) = rw (read_ids-put exts)

encode_nonempty : (es : Entries) → 1 ≤ length (encode (dict es))
unfolding encode
encode_nonempty es = omega lengths

handshake-IsCanonical :
    (exts : List (Bytes × ℤ)) (metadata_size : ℤ) (client_version : Bytes)
    → IsCanonical (dict (put_ids exts))
    → IsInt64 metadata_size
    → IsCanonical (dict (handshake_entries exts metadata_size client_version))
unfolding handshake_entries
handshake-IsCanonical exts size version h fits = elim (Bool-cases (ltb_ℤ (pos 0) size)) [
  | inl e ↦ rw e (refl, h, (refl, fits, (refl, tt, tt)))
  | inr e ↦ rw e (refl, h, (refl, tt, tt))
]

-- The handshake of extensions with distinct names in ascending order, all numbers of 64 bits and
-- the text below 2^63 bytes, is read back: with the numbers, the version, and the size of the
-- metadata, or 0 for one that is not positive.
pub parse-new_ext_handshake :
    (exts : List (Bytes × ℤ)) (metadata_size : ℤ) (client_version : Bytes)
    → IsCanonical (dict (put_ids exts))
    → IsInt64 metadata_size
    → length (new_ext_handshake exts metadata_size client_version).payload < 2 ^ 63
    → parse_ext_handshake (new_ext_handshake exts metadata_size client_version).payload
      ≡ ok (record {
        m = exts;
        metadata_size = if ltb_ℤ (pos 0) metadata_size then metadata_size else pos 0;
        v = client_version;
        upload_only = false;
      })
unfolding parse_ext_handshake new_ext_handshake handshake_entries lookup
parse-new_ext_handshake exts size version h fits short =
    let d = handshake_entries exts size version in
    let canonical = handshake-IsCanonical exts size version h fits in
    let back = decode-encode (dict d) canonical (omega arith) in
    let nonempty = encode_nonempty d in
    let enough : ltb (length (new_ext_handshake exts size version).payload) 2 ≡ false =
      ground arith in
    rw (enough, back)
      (elim (Bool-cases (ltb_ℤ (pos 0) size)) [
        | inl e ↦ rw (e, read_ids-put exts) refl
        | inr e ↦ rw (e, read_ids-put exts) refl
      ])
