-- ===== src/Dht/Krpc.antt =====
-- KRPC messages (dht/krpc.go, lines 33 to 139).
pub mod RoundTrip
use project_based_learning.Base.{
  ℤ, pos, eq_ℤ, Bool, true, false, Option, none, some, List, [], ◌∷◌, if◌then◌else◌, Bytes, codes,
}
use project_based_learning.Base.Wire.{bytes_eq}
use project_based_learning.Base.Outcome.{Outcome, ok, err, ◌>>=◌, or_err}
use project_based_learning.Bencode.Value.{
  Value, Items, Entries, str, int, list, dict, nil, cons, end, entry, encode,
}
use project_based_learning.Bencode.Decode.{decode}
use project_based_learning.Bencode.Access.{
  as_str, as_dict, lookup, str_at, int_at, list_at, dict_at, from_bencode,
}

-- An element of `Error`, of type int or string; the code makes no other.
pub data ErrorItem : Type 0 where
  code : ℤ → ErrorItem
  text : Bytes → ErrorItem

-- A nil Dict is the empty one.
pub record Message : Type 0 where
  pub txn_id : Bytes
  pub type : Bytes
  pub method : Bytes
  pub args : Entries
  pub reply : Entries
  pub error : List ErrorItem
  pub read_only : Bool

abbrev pub encode_error : List ErrorItem → Items
encode_error [] = nil
encode_error (code n ∷ es) = cons (int n) (encode_error es)
encode_error (text s ∷ es) = cons (str s) (encode_error es)

abbrev pub ro_entry : Bool → Entries
ro_entry true = entry (codes "ro") (int (pos 1)) end
ro_entry false = end

-- The entries that depend on the type.
abbrev pub typed_entries : Message → Entries
typed_entries m =
    if bytes_eq m.type (codes "q")
    then entry (codes "q") (str m.method) (entry (codes "a") (dict m.args) (ro_entry m.read_only))
    else if bytes_eq m.type (codes "r")
    then entry (codes "r") (dict m.reply) end
    else if bytes_eq m.type (codes "e")
    then entry (codes "e") (list (encode_error m.error)) end
    else end

abbrev pub to_entries : Message → Entries
to_entries m = entry (codes "t") (str m.txn_id) (entry (codes "y") (str m.type) (typed_entries m))

unfoldable pub encode_message : Message → Bytes
encode_message m = encode (dict (to_entries m))

abbrev pub decode_error : Items → List ErrorItem
decode_error nil = []
decode_error (cons (int n) xs) = code n ∷ decode_error xs
decode_error (cons (str s) xs) = text s ∷ decode_error xs
decode_error (cons v xs) = decode_error xs

abbrev pub or_empty : Option Bytes → Bytes
or_empty none = []
or_empty (some s) = s

abbrev pub or_end : Option Entries → Entries
or_end none = end
or_end (some es) = es

abbrev pub or_nil : Option Items → Items
or_nil none = nil
or_nil (some xs) = xs

abbrev pub is_one : Option ℤ → Bool
is_one none = false
is_one (some n) = eq_ℤ n (pos 1)

abbrev pub new_message : Bytes → Bytes → Message
new_message txn_id type = record {
  txn_id = txn_id;
  type = type;
  method = [];
  args = end;
  reply = end;
  error = [];
  read_only = false;
}

-- The fields that depend on the type.
abbrev pub fill : Entries → Message → Message
fill d m =
    if bytes_eq m.type (codes "q")
    then record m {
      method = or_empty (str_at (codes "q") d);
      args = or_end (dict_at (codes "a") d);
      read_only = is_one (int_at (codes "ro") d);
    }
    else if bytes_eq m.type (codes "r")
    then record m { reply = or_end (dict_at (codes "r") d) }
    else if bytes_eq m.type (codes "e")
    then record m { error = decode_error (or_nil (list_at (codes "e") d)) }
    else m

unfoldable pub decode_message : Bytes → Outcome Message
decode_message bytes = do
  val ← from_bencode (decode bytes)
  d ← or_err (as_dict val)
  t_val ← or_err (lookup (codes "t") d)
  y_val ← or_err (lookup (codes "y") d)
  ok (fill d (new_message (or_empty (as_str t_val)) (or_empty (as_str y_val))))
