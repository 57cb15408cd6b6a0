-- ===== src/Dht/Store.antt =====
-- The store of BEP 44 (dht/store.go). SHA-1 is the parameter `sha`, the check of an Ed25519
-- signature `verify` (of a key, a text and a signature); a time is a number of nanoseconds.
pub mod Put
pub mod Reach
use project_based_learning.Base.{
  ℕ, ◌+◌, ℤ, pos, ltb_ℤ, eq_ℤ, Bool, true, false, not, ◌&&◌, Option, none, some, List, [], ◌∷◌,
  ◌++◌, ltb, ◌==◌, if◌then◌else◌, length, replicate, Bytes, codes,
}
use project_based_learning.Base.Wire.{bytes_eq}
use project_based_learning.Base.Assoc.{get, put}
use project_based_learning.Bencode.Value.{Value, int, str, encode}

abbrev pub max_value_size : ℕ
max_value_size = 1000

abbrev pub max_salt_size : ℕ
max_salt_size = 64

pub record Item : Type 0 where
  pub value : Value
  pub key : Bytes
  pub sig : Bytes
  pub seq : ℤ
  pub salt : Bytes
  pub is_mutable : Bool
  pub stored : ℕ

-- A map by target.
abbrev pub Store : Type 0
Store = List (Bytes × Item)

abbrev pub immutable_item : Value → ℕ → Item
immutable_item v now = record {
  value = v;
  key = replicate 32 0;
  sig = replicate 64 0;
  seq = pos 0;
  salt = [];
  is_mutable = false;
  stored = now;
}

unfoldable pub mutable_sign_buffer : Bytes → ℤ → Bytes → Bytes
mutable_sign_buffer salt seq encoded_value =
    (if length salt == 0 then [] else codes "4:salt" ++ encode (str salt))
    ++ (codes "3:seq" ++ (encode (int seq) ++ (codes "1:v" ++ encoded_value)))

-- The loop of `Prune`: what stays, and how many it removes. A time before the cutoff,
-- `now - max_age`.
unfoldable pub prune : ℕ → ℕ → Store → Store × ℕ
prune now max_age [] = ([], 0)
prune now max_age ((t, item) ∷ s) =
    let rest = prune now max_age s in
    if ltb (item.stored + max_age) now then (rest.0, rest.1 + 1) else ((t, item) ∷ rest.0, rest.1)

-- The compare-and-swap value is none where the pointer is nil.
abbrev pub cas_fails : Option ℤ → Item → Bool
cas_fails none existing = false
cas_fails (some cas) existing = not (eq_ℤ cas existing.seq)

-- `Get`, whose lock is released before it returns.
abbrev pub get_item : Bytes → Store → Option Item
get_item target s = get target s

-- The writes, on what is stored at the target.
abbrev pub write : Bytes → Item → Option ℤ → Option Item → Store → Bool × Store
write target item cas none s = (true, put target item s)
write target item cas (some existing) s =
    if cas_fails cas existing
    then (false, s)
    else if ltb_ℤ item.seq existing.seq
    then (false, s)
    else if eq_ℤ item.seq existing.seq
    then (true, put target (record existing { stored = item.stored }) s)
    else (true, put target item s)

module _ (sha : Bytes → Bytes) where
  unfoldable pub immutable_target : Value → Bytes
  immutable_target v = sha (encode v)

  unfoldable pub mutable_target : Bytes → Bytes → Bytes
  mutable_target key salt = sha (key ++ salt)

  -- True is the answer nil, false an error.
  unfoldable pub put_immutable : Bytes → Value → ℕ → Store → Bool × Store
  put_immutable target v now s =
      if ltb max_value_size (length (encode v))
      then (false, s)
      else if not (bytes_eq (sha (encode v)) target)
      then (false, s)
      else (true, put target (immutable_item v now) s)

  module _ (verify : Bytes → Bytes → Bytes → Bool) where
    -- `PutMutable` with the key, salt, sequence number, signature, value, compare-and-swap value
    -- and time.
    unfoldable pub put_mutable :
        Bytes → Bytes → ℤ → Bytes → Value → Option ℤ → ℕ → Store → Bool × Store
    put_mutable key salt seq sig v cas now s =
        if ltb max_salt_size (length salt)
        then (false, s)
        else if ltb max_value_size (length (encode v))
        then (false, s)
        else if not (verify key (mutable_sign_buffer salt seq (encode v)) sig)
        then (false, s)
        else write (mutable_target key salt)
            (record {
              value = v;
              key = key;
              sig = sig;
              seq = seq;
              salt = salt;
              is_mutable = true;
              stored = now;
            })
            cas (get_item (mutable_target key salt) s) s
