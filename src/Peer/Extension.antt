-- ===== src/Peer/Extension.antt =====
-- The extension protocol and the state of partial seeds (peer/extension.go and peer/partialseed.go).
pub mod RoundTrip
use project_based_learning.Base.{
  ℕ, zero, suc, ℤ, pos, negsuc, ltb_ℤ, eq_ℤ, Bool, true, false, not, Option, none, some, List, [],
  ◌∷◌, ltb, ◌==◌, if◌then◌else◌, length, drop, get_or, Bytes, codes,
}
use project_based_learning.Base.Outcome.{Outcome, ok, err, ◌>>=◌, or_err}
use project_based_learning.Bencode.Value.{Value, Entries, str, int, list, dict, end, entry, encode}
use project_based_learning.Bencode.Decode.{decode}
use project_based_learning.Bencode.Access.{as_dict, str_at, int_at, dict_at, from_bencode}
use project_based_learning.Peer.Message.{Message}

abbrev pub msg_extended : ℕ
msg_extended = 20

-- `m` has the numbers of the extensions by their names.
pub record ExtHandshake : Type 0 where
  pub m : List (Bytes × ℤ)
  pub metadata_size : ℤ
  pub v : Bytes
  pub upload_only : Bool

-- The number is a byte.
unfoldable pub new_ext_message : ℕ → Bytes → Message
new_ext_message sub_id d = record { id = msg_extended; payload = sub_id ∷ d }

unfoldable pub put_ids : List (Bytes × ℤ) → Entries
put_ids [] = end
put_ids ((name, id) ∷ exts) = entry name (int id) (put_ids exts)

abbrev pub version_entry : Bytes → Entries
version_entry client_version = entry (codes "v") (str client_version) end

abbrev pub size_entry : ℤ → Entries → Entries
size_entry metadata_size es =
    if ltb_ℤ (pos 0) metadata_size then entry (codes "metadata_size") (int metadata_size) es else es

unfoldable pub handshake_entries : List (Bytes × ℤ) → ℤ → Bytes → Entries
handshake_entries exts metadata_size client_version =
    entry (codes "m") (dict (put_ids exts))
      (size_entry metadata_size (version_entry client_version))

unfoldable pub new_ext_handshake : List (Bytes × ℤ) → ℤ → Bytes → Message
new_ext_handshake exts metadata_size client_version = record {
  id = msg_extended;
  payload = 0 ∷ encode (dict (handshake_entries exts metadata_size client_version));
}

-- Entries that are no integers are left out.
unfoldable pub read_ids : Entries → List (Bytes × ℤ)
read_ids end = []
read_ids (entry name (int id) es) = (name, id) ∷ read_ids es
read_ids (entry name (str s) es) = read_ids es
read_ids (entry name (list xs) es) = read_ids es
read_ids (entry name (dict d) es) = read_ids es

abbrev pub ids_of : Option Entries → List (Bytes × ℤ)
ids_of none = []
ids_of (some es) = read_ids es

-- A missing integer stays 0, a missing text empty.
abbrev pub or_zero : Option ℤ → ℤ
or_zero none = pos 0
or_zero (some n) = n

abbrev pub or_empty : Option Bytes → Bytes
or_empty none = []
or_empty (some s) = s

abbrev pub from_entries : Entries → ExtHandshake
from_entries d = record {
  m = ids_of (dict_at (codes "m") d);
  metadata_size = or_zero (int_at (codes "metadata_size") d);
  v = or_empty (str_at (codes "v") d);
  upload_only = not (eq_ℤ (or_zero (int_at (codes "upload_only") d)) (pos 0));
}

unfoldable pub parse_ext_handshake : Bytes → Outcome ExtHandshake
parse_ext_handshake payload =
    if ltb (length payload) 2
    then err
    else if not (get_or payload 0 0 == 0)
    then err
    else from_bencode (decode (drop 1 payload)) >>= λ val.
        or_err (as_dict val) >>= λ d. ok (from_entries d)

unfoldable pub encode_upload_only : Bool → Bytes
encode_upload_only upload_only =
    encode (dict (entry (codes "upload_only") (int (if upload_only then pos 1 else pos 0)) end))

-- The dict form and the bare integer.
abbrev pub upload_only_of : Value → Outcome Bool
upload_only_of (dict d) = ok (not (eq_ℤ (or_zero (int_at (codes "upload_only") d)) (pos 0)))
upload_only_of (int n) = ok (not (eq_ℤ n (pos 0)))
upload_only_of (str s) = err
upload_only_of (list xs) = err

unfoldable pub decode_upload_only : Bytes → Outcome Bool
decode_upload_only payload =
    if length payload == 0 then err else from_bencode (decode payload) >>= upload_only_of

unfoldable pub new_upload_only_msg : ℕ → Bool → Message
unfolding new_ext_message encode_upload_only
new_upload_only_msg sub_id upload_only = new_ext_message sub_id (encode_upload_only upload_only)
