-- ===== src/Bencode/Value.antt =====
-- Bencoded values and `Encode` (bencode.go, lines 18 to 100).
use project_based_learning.Base.{ℤ, [], ◌∷◌, ◌++◌, List, length, Bytes, lex_lt, if◌then◌else◌}
use project_based_learning.Bencode.Decimal.{decimal, append_int}

-- `Items` is the slice inside a List and `Entries` the content of a Dict, a Go map, as the list
-- of its entries in some order, each key once.
mutual
  pub data Value : Type 0 where
    str : Bytes → Value
    int : ℤ → Value
    list : Items → Value
    dict : Entries → Value

  pub data Items : Type 0 where
    nil : Items
    cons : Value → Items → Items

  pub data Entries : Type 0 where
    end : Entries
    entry : Bytes → Value → Entries → Entries

-- `strconv.AppendInt` of the length, a colon and the bytes.
unfoldable pub encode_str : Bytes → Bytes
encode_str s = decimal (length s) ++ b':' ∷ s

-- The entries of a dict, each key with its encoded value.
abbrev pub Coded : Type 0
Coded = List (Bytes × Bytes)

-- `sort.Strings` on the keys: the keys are distinct, so one order is sorted.
abbrev pub insert_key : Bytes → Bytes → Coded → Coded
insert_key k v [] = (k, v) ∷ []
insert_key k v ((j, w) ∷ m) =
    let rest = insert_key k v m in if lex_lt k j then (k, v) ∷ (j, w) ∷ m else (j, w) ∷ rest

abbrev pub sort_keys : Coded → Coded
sort_keys [] = []
sort_keys ((k, v) ∷ m) = insert_key k v (sort_keys m)

abbrev pub write_entries : Coded → Bytes
write_entries [] = []
write_entries ((k, v) ∷ m) = encode_str k ++ (v ++ write_entries m)

unfoldable mutual
  pub encode : Value → Bytes
  encode (str s) = encode_str s
  encode (int n) = b'i' ∷ (append_int n ++ b'e' ∷ [])
  encode (list xs) = b'l' ∷ (encode_items xs ++ b'e' ∷ [])
  encode (dict es) = b'd' ∷ (write_entries (sort_keys (encode_entries es)) ++ b'e' ∷ [])

  pub encode_items : Items → Bytes
  encode_items nil = []
  encode_items (cons v xs) = encode v ++ encode_items xs

  pub encode_entries : Entries → Coded
  encode_entries end = []
  encode_entries (entry k v es) = (k, encode v) ∷ encode_entries es
