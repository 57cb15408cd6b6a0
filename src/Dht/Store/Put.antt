-- ===== src/Dht/Store/Put.antt =====
-- What a put does to the store.
use project_based_learning.Base.{
  ℕ, ◌≤◌, ◌<◌, ◌==◌, ◌++◌, append_assoc, append-nil, codes, if◌then◌else◌, eq_ℤ→eq, eq_ℤ_refl, ◌≡◌,
  ◌⊎◌, refl, ℤ, ltb_ℤ, eq_ℤ, Bool, true, false, Bool-cases, inl, inr, Option, none, some, arith,
  ltb, length, Bytes,
}
use project_based_learning.Base.Assoc.{get, put}
use project_based_learning.Bencode.Value.{
  Value, Entries, str, int, dict, end, entry, encode, encode_str,
}
use project_based_learning.Bencode.Decimal.{decimal}
use project_based_learning.Dht.Store.{
  max_value_size, max_salt_size, Item, Store, mutable_sign_buffer, mutable_target, cas_fails, write,
  put_mutable,
}

-- The new item of a mutable put.
abbrev pub new_item : Bytes → Bytes → ℤ → Bytes → Value → ℕ → Item
new_item key salt seq sig v now = record {
  value = v;
  key = key;
  sig = sig;
  seq = seq;
  salt = salt;
  is_mutable = true;
  stored = now;
}

-- The number that a put asks for, if any, is the stored one.
abbrev pub Matches : Option ℤ → ℤ → Type 0
Matches none stored = Unit
Matches (some asked) stored = asked ≡ stored

-- A put that stores its item: what was there, if anything, has a smaller number, and the one
-- that the put asked for.
abbrev pub Replaces : Option ℤ → ℤ → Option Item → Type 0
Replaces cas seq none = Unit
Replaces cas seq (some old) = Matches cas old.seq × (ltb_ℤ old.seq seq ≡ true)

-- What was there has another number than the put asked for, or a larger one than the new item.
abbrev pub Conflicts : Option ℤ → ℤ → Option Item → Type 0
Conflicts cas seq none = ⊥
Conflicts cas seq (some old) = (¬ Matches cas old.seq) ⊎ (ltb_ℤ seq old.seq ≡ true)

cas_cases :
    (cas : Option ℤ) (old : Item)
    → ((cas_fails cas old ≡ false) × Matches cas old.seq)
      ⊎ ((cas_fails cas old ≡ true) × (¬ Matches cas old.seq))
cas_cases none old = inl (refl, tt)
cas_cases (some asked) old = elim (Bool-cases (eq_ℤ asked old.seq)) [
  | inl same ↦ inl (rw same refl, eq_ℤ→eq asked old.seq same)
  | inr other ↦ inr (
    rw other refl,
    λ e.
        let same : eq_ℤ asked old.seq ≡ true = rw e (eq_ℤ_refl old.seq) in
        absurd (ground (arith, same, other)),
  )
]

-- A put that only renews the time of what is there, under the same number.
abbrev pub Renews : Option ℤ → ℤ → ℕ → Option Item → Item → Type 0
Renews cas seq now none item = ⊥
Renews cas seq now (some old) item =
    Matches cas old.seq × (seq ≡ old.seq) × (item ≡ record old { stored = now })

-- The text that is signed, after BEP 44: the dict of the salt, if there is one, the number and the
-- value, encoded, without its first and last byte.
abbrev pub signed_entries : Bytes → ℤ → Value → Entries
signed_entries salt seq v =
    let rest = entry (codes "seq") (int seq) (entry (codes "v") v end) in
    if length salt == 0 then rest else entry (codes "salt") (str salt) rest

abbrev pub IsSignedText : Bytes → ℤ → Value → Bytes → Type 0
IsSignedText salt seq v text =
    encode (dict (signed_entries salt seq v)) ≡ codes "d" ++ (text ++ codes "e")

mutable_sign_buffer_lem :
    (salt : Bytes) (seq : ℤ) (v : Value)
    → IsSignedText salt seq v (mutable_sign_buffer salt seq (encode v))
unfolding mutable_sign_buffer encode encode_str decimal
mutable_sign_buffer_lem salt seq v = elim (Bool-cases (length salt == 0)) [
  | inl empty ↦ rw empty (simp (append_assoc, append-nil))
  | inr salted ↦ rw salted (simp (append_assoc, append-nil))
]

module _ (sha : Bytes → Bytes) (verify : Bytes → Bytes → Bytes → Bool) where
  -- A mutable item is signed by the key that its target is made of, an immutable one hashes to its
  -- target, and both are small.
  pub record IsSigned (target : Bytes) (item : Item) : Type 0 where
    pub marked : item.is_mutable ≡ true
    pub of_key : sha (item.key ++ item.salt) ≡ target
    pub text : Bytes
    pub text_is : IsSignedText item.salt item.seq item.value text
    pub signed : verify item.key text item.sig ≡ true
    pub value_small : length (encode item.value) ≤ 1000
    pub salt_small : length item.salt ≤ 64

  pub record IsHashed (target : Bytes) (item : Item) : Type 0 where
    pub unmarked : item.is_mutable ≡ false
    pub of_value : sha (encode item.value) ≡ target
    pub value_small : length (encode item.value) ≤ 1000

  abbrev pub IsAuthentic : Bytes × Item → Type 0
  IsAuthentic (target, item) = IsSigned target item ⊎ IsHashed target item

  module _ (key salt : Bytes) (seq : ℤ) (sig : Bytes) (v : Value) (cas : Option ℤ) (now : ℕ)
      (s : Store) where
    abbrev target : Bytes
    target = mutable_target sha key salt

    abbrev item : Item
    item = new_item key salt seq sig v now

    pub record Stored (result : Bool × Store) : Type 0 where
      pub written : Item
      pub answer : result.0 ≡ true
      pub after : result.1 ≡ put target written s
      pub signed : IsSigned target item
      pub how :
          ((written ≡ item) × Replaces cas seq (get target s))
          ⊎ Renews cas seq now (get target s) written

    -- The store stays, for a reason.
    pub record Refused (result : Bool × Store) : Type 0 where
      pub answer : result.0 ≡ false
      pub after : result.1 ≡ s
      pub why :
          (64 < length salt)
          ⊎ (1000 < length (encode v))
          ⊎ ((text : Bytes) × IsSignedText salt seq v text × (verify key text sig ≡ false))
          ⊎ Conflicts cas seq (get target s)

    write_cases :
        (old : Option Item)
        → get target s ≡ old
        → IsSigned target item
        → Refused (write target item cas old s) ⊎ Stored (write target item cas old s)
    write_cases none e g = inr (record {
      written = item;
      answer = refl;
      after = refl;
      signed = g;
      how = inl (refl, rw e tt);
    })
    write_cases (some old) e g = elim (cas_cases cas old) [
      | inr (mismatch, differs) ↦ inl (
          rw mismatch
            (record { answer = refl; after = refl; why = inr (inr (inr (rw e (inl differs)))) }))
      | inl (match, same_asked) ↦ elim (Bool-cases (ltb_ℤ seq old.seq)) [
        | inl older ↦ inl (
            rw (match, older)
              (record { answer = refl; after = refl; why = inr (inr (inr (rw e (inr older)))) }))
        | inr newer ↦ elim (Bool-cases (eq_ℤ seq old.seq)) [
          | inl same ↦ inr (
              rw (match, newer, same)
                (record {
                  written = record old { stored = now };
                  answer = refl;
                  after = refl;
                  signed = g;
                  how = inr (rw e (same_asked, eq_ℤ→eq seq old.seq same, refl));
                }))
          | inr other ↦
              let larger : ltb_ℤ old.seq seq ≡ true = ground (arith, newer, other) in
              inr (
                rw (match, newer, other)
                  (record {
                    written = item;
                    answer = refl;
                    after = refl;
                    signed = g;
                    how = inl (refl, rw e (same_asked, larger));
                  }))
        ]
      ]
    ]

    -- A mutable put either is refused and leaves the store, and then the salt or the value is too
    -- large, the signature is wrong, the comparison fails or the stored number is larger; or it is correctly signed and small and
    -- writes at its target alone: the new item, where the stored number is smaller and the
    -- comparison holds, or, under the same number, the old item with a new time.
    pub put_mutable_cases :
        Refused (put_mutable sha verify key salt seq sig v cas now s)
        ⊎ Stored (put_mutable sha verify key salt seq sig v cas now s)
    unfolding put_mutable
    put_mutable_cases =
        let sign_buffer = mutable_sign_buffer_lem salt seq v in
        elim (Bool-cases (ltb max_salt_size (length salt))) [
          | inl long ↦
              inl
                (rw long (record { answer = refl; after = refl; why = inl (ground (arith, long)) }))
          | inr salt_fits ↦ elim (Bool-cases (ltb max_value_size (length (encode v)))) [
            | inl big ↦ inl (
                rw (salt_fits, big)
                  (record { answer = refl; after = refl; why = inr (inl (ground (arith, big))) }))
            | inr value_fits ↦
                elim (Bool-cases (verify key (mutable_sign_buffer salt seq (encode v)) sig)) [
                  | inl good ↦
                      rw (salt_fits, value_fits, good)
                        (write_cases (get target s) refl (record {
                          marked = refl;
                          of_key = unfold mutable_target in refl;
                          text = mutable_sign_buffer salt seq (encode v);
                          text_is = sign_buffer;
                          signed = good;
                          value_small = ground (arith, value_fits);
                          salt_small = ground (arith, salt_fits);
                        }))
                  | inr bad ↦ inl (
                      rw (salt_fits, value_fits, bad)
                        (record {
                          answer = refl;
                          after = refl;
                          why = inr (
                              inr
                                (inl (mutable_sign_buffer salt seq (encode v), sign_buffer, bad)));
                        }))
                ]
          ]
        ]
