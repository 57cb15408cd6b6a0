-- ===== src/Bencode/Order.antt =====
-- Encoding does not depend on the order in which Go walks a map.
use project_based_learning.Base.{
  ◌≡◌, ◌≢◌, refl, ap, ◌∙◌, true, false, [], ◌∷◌, ◌++◌, arith, Bytes, lex_lt,
}
use project_based_learning.Bencode.Value.{
  Value, Entries, dict, entry, Coded, insert_key, sort_keys, write_entries, encode, encode_entries,
}

lex_trans : (a b c : Bytes) → lex_lt a b ≡ true → lex_lt b c ≡ true → lex_lt a c ≡ true
lex_trans [] [] c h k = cc
lex_trans [] (y ∷ b) [] h k = cc
lex_trans [] (y ∷ b) (z ∷ c) h k = refl
lex_trans (x ∷ a) [] c h k = cc
lex_trans (x ∷ a) (y ∷ b) [] h k = cc
lex_trans (x ∷ a) (y ∷ b) (z ∷ c) h k = ground (arith, lex_trans a b c)

lex_asym : (a b : Bytes) → lex_lt a b ≡ true → lex_lt b a ≡ false
lex_asym [] [] h = cc
lex_asym [] (y ∷ b) h = refl
lex_asym (x ∷ a) [] h = cc
lex_asym (x ∷ a) (y ∷ b) h = ground (arith, lex_asym a b)

lex_total : (a b : Bytes) → a ≢ b → lex_lt a b ≡ false → lex_lt b a ≡ true
lex_total [] [] h k = absurd (h refl)
lex_total [] (y ∷ b) h k = cc
lex_total (x ∷ a) [] h k = refl
lex_total (x ∷ a) (y ∷ b) h k = ground (arith, lex_total a b)

-- Two entries with distinct keys can be inserted in either order.
insert_comm :
    (k j : Bytes) (v w : Bytes) (m : Coded)
    → k ≢ j
    → insert_key k v (insert_key j w m) ≡ insert_key j w (insert_key k v m)
insert_comm k j v w [] h = ground (arith, lex_asym k j, lex_total k j)
insert_comm k j v w ((i, x) ∷ m) h = ground (
  arith,
  insert_comm k j v w m h,
  lex_asym k j,
  lex_total k j,
  lex_trans k j i,
  lex_trans j k i,
  lex_asym j i,
  lex_asym k i,
)

-- Two listings of one map: the same entries, each key once, in another order.
pub data SameMap : Entries → Entries → Type 0 where
  same : {es : Entries} → SameMap es es
  keep :
      {es fs : Entries} (k : Bytes) (v : Value)
      → SameMap es fs
      → SameMap (entry k v es) (entry k v fs)
  exchange :
      {es : Entries} (k j : Bytes) (v w : Value)
      → k ≢ j
      → SameMap (entry k v (entry j w es)) (entry j w (entry k v es))
  chain : {es fs gs : Entries} → SameMap es fs → SameMap fs gs → SameMap es gs

sort-SameMap :
    {es fs : Entries}
    → SameMap es fs
    → sort_keys (encode_entries es) ≡ sort_keys (encode_entries fs)
unfolding encode
sort-SameMap same = refl
sort-SameMap (keep k v m) = ap (insert_key k (encode v)) (sort-SameMap m)
sort-SameMap (exchange {es} k j v w h) =
    insert_comm k j (encode v) (encode w) (sort_keys (encode_entries es)) h
sort-SameMap (chain m n) = sort-SameMap m ∙ sort-SameMap n

-- Two listings of one map have one encoding.
pub encode-SameMap : {es fs : Entries} → SameMap es fs → encode (dict es) ≡ encode (dict fs)
unfolding encode
encode-SameMap m = ap (λ c. b'd' ∷ (write_entries c ++ b'e' ∷ [])) (sort-SameMap m)
