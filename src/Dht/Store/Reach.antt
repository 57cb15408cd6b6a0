-- ===== src/Dht/Store/Reach.antt =====
-- What the store holds after any sequence of puts and prunes.
use project_based_learning.Base.{
  ◌+◌, [], ◌∷◌, ℕ, ◌≡◌, refl, ℤ, Bool, sym, Bool-cases, inl, inr, Option, none, some, [], arith,
  ltb, length, Bytes, All,
}
use mathlib.Core.Path.{subst}
use project_based_learning.Base.Wire.{bytes_eq, bytes_eq→eq}
use project_based_learning.Base.Assoc.{get, All-put, All-get}
use project_based_learning.Bencode.Value.{Value, encode}
use project_based_learning.Dht.Store.{
  max_value_size, Item, Store, get, immutable_item, prune, mutable_target, put_immutable,
  put_mutable,
}
use project_based_learning.Dht.Store.Put.{IsAuthentic, Renews, put_mutable_cases}

module _ (sha : Bytes → Bytes) (verify : Bytes → Bytes → Bytes → Bool) where
  pub data Reach : Store → Type 0 where
    start : Reach []
    immutable :
        {s : Store} (target : Bytes) (v : Value) (now : ℕ)
        → Reach s
        → Reach (put_immutable sha target v now s).1
    mutable :
        {s : Store} (key salt : Bytes) (seq : ℤ) (sig : Bytes) (v : Value) (cas : Option ℤ)
        (now : ℕ)
        → Reach s
        → Reach (put_mutable sha verify key salt seq sig v cas now s).1
    pruned : {s : Store} (now max_age : ℕ) → Reach s → Reach (prune now max_age s).0

  abbrev AreAuthentic : Store → Type 0
  AreAuthentic = All (IsAuthentic sha verify)

  prune-AreAuthentic :
      (now max_age : ℕ) (s : Store) → AreAuthentic s → AreAuthentic (prune now max_age s).0
  unfolding prune
  prune-AreAuthentic now max_age [] k = tt
  prune-AreAuthentic now max_age ((t, item) ∷ s) k =
      elim (Bool-cases (ltb (item.stored + max_age) now)) [
        | inl old ↦ rw old (prune-AreAuthentic now max_age s k.1)
        | inr young ↦ rw young (k.0, prune-AreAuthentic now max_age s k.1)
      ]

  -- A new time is no part of what makes an item authentic.
  renewed :
      (target : Bytes) (old : Item) (now : ℕ)
      → IsAuthentic sha verify (target, old)
      → IsAuthentic sha verify (target, record old { stored = now })
  renewed target old now (inl g) = inl (record {
    marked = g.marked;
    of_key = g.of_key;
    text = g.text;
    text_is = g.text_is;
    signed = g.signed;
    value_small = g.value_small;
    salt_small = g.salt_small;
  })
  renewed target old now (inr h) =
      inr (record { unmarked = h.unmarked; of_value = h.of_value; value_small = h.value_small })

  put_immutable-AreAuthentic :
      (target : Bytes) (v : Value) (now : ℕ) (s : Store)
      → AreAuthentic s
      → AreAuthentic (put_immutable sha target v now s).1
  unfolding put_immutable
  put_immutable-AreAuthentic target v now s k =
      elim (Bool-cases (ltb max_value_size (length (encode v)))) [
        | inl big ↦ rw big k
        | inr fits ↦ elim (Bool-cases (bytes_eq (sha (encode v)) target)) [
          | inr other ↦ rw (fits, other) k
          | inl same ↦
              rw (fits, same)
                (All-put (IsAuthentic sha verify) target (immutable_item v now) s
                  (inr (record {
                    unmarked = refl;
                    of_value = bytes_eq→eq (sha (encode v)) target same;
                    value_small = ground (arith, fits);
                  }))
                  k)
        ]
      ]

  Renews-IsAuthentic :
      (target : Bytes) (cas : Option ℤ) (seq : ℤ) (now : ℕ) (s : Store)
      → AreAuthentic s
      → (there : Option Item) → get target s ≡ there
      → (item : Item) → Renews cas seq now there item
      → IsAuthentic sha verify (target, item)
  Renews-IsAuthentic target cas seq now s k none e item h = absurd h
  Renews-IsAuthentic target cas seq now s k (some old) e item h =
      subst (λ i. IsAuthentic sha verify (target, i)) (sym h.2)
        (renewed target old now (All-get (IsAuthentic sha verify) target s old k e))

  put_mutable-AreAuthentic :
      (key salt : Bytes) (seq : ℤ) (sig : Bytes) (v : Value) (cas : Option ℤ) (now : ℕ) (s : Store)
      → AreAuthentic s
      → AreAuthentic (put_mutable sha verify key salt seq sig v cas now s).1
  put_mutable-AreAuthentic key salt seq sig v cas now s k =
      elim (put_mutable_cases sha verify key salt seq sig v cas now s) [
        | inl refused ↦ subst AreAuthentic (sym refused.after) k
        | inr st ↦
            let target = mutable_target sha key salt in
            subst AreAuthentic (sym st.after) (
              All-put (IsAuthentic sha verify) target st.written s
                (elim st.how [
                  | inl (e, _) ↦
                      subst (λ i. IsAuthentic sha verify (target, i)) (sym e) (inl st.signed)
                  | inr again ↦
                      Renews-IsAuthentic target cas seq now s k (get target s) refl st.written again
                ])
                k)
      ]

  -- After any sequence of puts and prunes on an empty store every item is authentic: a mutable one
  -- is signed, as the encoded dict of its salt, number and value without the first and last byte, by
  -- the key whose hash with the salt is its target; an immutable one hashes to its target; and
  -- values and salts keep to their limits.
  pub Reach-IsAuthentic : {s : Store} → Reach s → All (IsAuthentic sha verify) s
  Reach-IsAuthentic start = tt
  Reach-IsAuthentic (immutable {s} target v now r) =
      put_immutable-AreAuthentic target v now s (Reach-IsAuthentic r)
  Reach-IsAuthentic (mutable {s} key salt seq sig v cas now r) =
      put_mutable-AreAuthentic key salt seq sig v cas now s (Reach-IsAuthentic r)
  Reach-IsAuthentic (pruned {s} now max_age r) =
      prune-AreAuthentic now max_age s (Reach-IsAuthentic r)
