-- ===== src/Bencode/Access.antt =====
-- What the clients of bencode.go do with its values: reads of a Dict and type assertions.
pub mod Laws
use project_based_learning.Base.{
  ℤ, Bool, true, false, Option, none, some, [], ◌∷◌, Bytes, if◌then◌else◌,
}
use project_based_learning.Base.Wire.{bytes_eq}
use project_based_learning.Base.Outcome
use project_based_learning.Bencode.Outcome as BencodeOutcome
use project_based_learning.Bencode.Value.{Value, Items, Entries, str, int, list, dict, end, entry}
use project_based_learning.Bencode.Decode.{RawValue, RawDict}

infixl 5 ◌>>=◌
abbrev pub ◌>>=◌ {ℓ κ} : {A : Type ℓ} {B : Type κ} → Option A → (A → Option B) → Option B
none >>= f = none
some a >>= f = f a

abbrev pub as_str : Value → Option Bytes
as_str (str s) = some s
as_str v = none

abbrev pub as_int : Value → Option ℤ
as_int (int n) = some n
as_int v = none

abbrev pub as_list : Value → Option Items
as_list (list xs) = some xs
as_list v = none

abbrev pub as_dict : Value → Option Entries
as_dict (dict es) = some es
as_dict v = none

-- `d[key]`; a key is there once at most.
unfoldable pub lookup : Bytes → Entries → Option Value
lookup k end = none
lookup k (entry j v es) = if bytes_eq j k then some v else lookup k es

unfoldable pub raw_lookup : Bytes → RawDict → Option RawValue
raw_lookup k [] = none
raw_lookup k ((j, r) ∷ m) = if bytes_eq j k then some r else raw_lookup k m

-- `d[key].(T)`: none where the key is missing, or its value of another type.
abbrev pub str_at : Bytes → Entries → Option Bytes
str_at k d = lookup k d >>= as_str

abbrev pub int_at : Bytes → Entries → Option ℤ
int_at k d = lookup k d >>= as_int

abbrev pub list_at : Bytes → Entries → Option Items
list_at k d = lookup k d >>= as_list

abbrev pub dict_at : Bytes → Entries → Option Entries
dict_at k d = lookup k d >>= as_dict

abbrev pub is_some {ℓ} : {A : Type ℓ} → Option A → Bool
is_some (some a) = true
is_some none = false

abbrev pub from_bencode {ℓ} : {A : Type ℓ} → BencodeOutcome.Outcome A → Outcome.Outcome A
from_bencode (BencodeOutcome.ok a) = Outcome.ok a
from_bencode (BencodeOutcome.err e) = Outcome.err
from_bencode BencodeOutcome.panic = Outcome.panic
from_bencode BencodeOutcome.out_of_fuel = Outcome.out_of_fuel
