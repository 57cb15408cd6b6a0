-- ===== src/Dht/Krpc/RoundTrip.antt =====
-- A message read back from its encoding.
use project_based_learning.Base.{
  ◌^◌, ◌<◌, ◌≡◌, refl, ap, pos, IsInt64, Bool, true, false, List, [], ◌∷◌, arith, length, Bytes,
  codes, All,
}
use project_based_learning.Base.Outcome.{ok}
use project_based_learning.Bencode.Value.{Entries, str, int, list, dict, end, entry, encode}
use project_based_learning.Bencode.RoundTrip.{IsCanonical, AreCanonical, decode-encode}
use project_based_learning.Bencode.Access.{lookup}
use project_based_learning.Dht.Krpc.{
  ErrorItem, code, text, Message, encode_error, encode_message, decode_error, new_message,
  decode_message,
}

abbrev FitsInt : ErrorItem → Type 0
FitsInt (code n) = IsInt64 n
FitsInt (text s) = Unit

-- The messages that the type allows: the fields of the other types are empty.
pub data WellFormed : Message → Type 0 where
  query :
      (txn_id method : Bytes) (args : Entries) (read_only : Bool)
      → IsCanonical (dict args)
      → WellFormed (record (new_message txn_id (codes "q")) {
        method = method;
        args = args;
        read_only = read_only;
      })
  response :
      (txn_id : Bytes) (reply : Entries)
      → IsCanonical (dict reply)
      → WellFormed (record (new_message txn_id (codes "r")) { reply = reply })
  failure :
      (txn_id : Bytes) (error : List ErrorItem)
      → All FitsInt error
      → WellFormed (record (new_message txn_id (codes "e")) { error = error })

encode_error-AreCanonical :
    (error : List ErrorItem) → All FitsInt error → AreCanonical (encode_error error)
encode_error-AreCanonical [] h = tt
encode_error-AreCanonical (code n ∷ es) h = (h.0, encode_error-AreCanonical es h.1)
encode_error-AreCanonical (text s ∷ es) h = (tt, encode_error-AreCanonical es h.1)

decode_error-encode : (error : List ErrorItem) → decode_error (encode_error error) ≡ error
decode_error-encode [] = refl
decode_error-encode (code n ∷ es) = ap (λ l. code n ∷ l) (decode_error-encode es)
decode_error-encode (text s ∷ es) = ap (λ l. text s ∷ l) (decode_error-encode es)

-- A query, response or error below 2^63 bytes, with canonical dicts and integers of 64 bits, is
-- read back from its encoding.
pub decode-encode_message :
    {m : Message}
    → WellFormed m
    → length (encode_message m) < 2 ^ 63
    → decode_message (encode_message m) ≡ ok m
unfolding decode_message encode_message encode lookup
decode-encode_message (query t q args true c) fits =
    let sorted = entry (codes "a") (dict args) (
      entry (codes "q") (str q) (
        entry (codes "ro") (int (pos 1))
          (entry (codes "t") (str t) (entry (codes "y") (str (codes "q")) end)))) in
    rw (
      decode-encode (dict sorted)
        (refl, c, (refl, tt, (refl, omega arith, (refl, tt, (refl, tt, tt))))) fits)
decode-encode_message (query t q args false c) fits =
    let sorted = entry (codes "a") (dict args) (
      entry (codes "q") (str q)
        (entry (codes "t") (str t) (entry (codes "y") (str (codes "q")) end))) in
    rw (decode-encode (dict sorted) (refl, c, (refl, tt, (refl, tt, (refl, tt, tt)))) fits)
decode-encode_message (response t reply c) fits =
    let sorted =
      entry (codes "r") (dict reply)
        (entry (codes "t") (str t) (entry (codes "y") (str (codes "r")) end)) in
    rw (decode-encode (dict sorted) (refl, c, (refl, tt, (refl, tt, tt))) fits)
decode-encode_message (failure t error h) fits =
    let sorted =
      entry (codes "e") (list (encode_error error))
        (entry (codes "t") (str t) (entry (codes "y") (str (codes "e")) end)) in
    rw (
      decode-encode (dict sorted)
          (refl, encode_error-AreCanonical error h, (refl, tt, (refl, tt, tt))) fits,
      decode_error-encode error,
    )
