-- ===== src/Magnet/Metadata/Complete.antt =====
-- Metadata from a peer that answers.
use project_based_learning.Base.{
  ℕ, suc, ◌+◌, ◌-◌, ◌*◌, ◌/◌, ◌^◌, ◌≤◌, ◌<◌, ◌≡◌, ◌≢◌, refl, sym, ap, ◌∙◌, pos, ltb_ℤ, eq_ℤ, true,
  false, not, Option, none, some, List, [], ◌∷◌, ◌++◌, ltb, ◌==◌, arith, length, lengths,
  length-replicate, length-set, length-append_bytes, drop, get_or, get_or-set, get_or-replicate,
  set, Bytes, All, contains, codes, Bool-cases, inl, inr,
}
use project_based_learning.Base.Outcome.{ok}
use project_based_learning.Base.Wire.{drop_exact, bytes_eq_refl}
use project_based_learning.Base.Assemble.{
  block_size, copy_at, block, length-block, IsMissing, IsMissing-none, IsMissing-block,
}
use project_based_learning.Base.Assoc.{get}
use project_based_learning.Bencode.Value.{Value, int, dict, end, entry, encode}
use project_based_learning.Bencode.RoundTrip.{IsCanonical, decode_first-encode}
use project_based_learning.Bencode.Access.{lookup}
use project_based_learning.Peer.Message.{Message}
use project_based_learning.Peer.Framing.{Fits}
use project_based_learning.Peer.Extension.{msg_extended, ExtHandshake, new_ext_message}
use project_based_learning.Magnet.Metadata.{
  metadata_data, parse_metadata_response, Fetch, num_pieces, expected_len, receive_piece,
  on_metadata, read_replies, new_fetch, fetch_metadata,
}

-- A data message of BEP 9: the dict and, behind it, the piece.
abbrev pub data_dict : Bytes → ℕ → Value
data_dict d i = dict (
    entry (codes "msg_type") (int metadata_data)
      (entry (codes "piece") (int (pos i)) (entry (codes "total_size") (int (pos (length d))) end)))

unfoldable pub data_message : Bytes → ℕ → ℕ → Message
unfolding new_ext_message
data_message d id i = new_ext_message id (encode (data_dict d i) ++ block i d)

-- A message that is no extended one is skipped.
abbrev pub IsOther : Option Message → Type 0
IsOther none = Unit {0}
IsOther (some m) = m.id ≢ msg_extended

-- The messages are the listed pieces, in that order, with repetitions of pieces and other messages
-- in between.
pub data Answers (d : Bytes) (id : ℕ) : List ℕ → List (Option Message) → Type 0 where
  done : (ms : List (Option Message)) → Answers d id [] ms
  other :
      (left : List ℕ) (m : Option Message) (ms : List (Option Message))
      → IsOther m
      → Answers d id left ms
      → Answers d id left (m ∷ ms)
  repeat :
      (i : ℕ) (left : List ℕ) (ms : List (Option Message))
      → i < num_pieces (length d)
      → contains i left ≡ false
      → Answers d id left ms
      → Answers d id left (some (data_message d id i) ∷ ms)
  reply :
      (i : ℕ) (left : List ℕ) (ms : List (Option Message))
      → i < num_pieces (length d)
      → contains i left ≡ false
      → Answers d id left ms
      → Answers d id (i ∷ left) (some (data_message d id i) ∷ ms)

-- The state when the listed pieces are left.
abbrev IsFetch : Bytes → List ℕ → Fetch → Type 0
IsFetch d left f =
    (f.pending ≡ length left)
    × IsMissing d left f.metadata
    × (length f.received ≡ num_pieces (length d))
    × ((j : ℕ) → j < num_pieces (length d) → get_or f.received j false ≡ not (contains j left))

module _ (d : Bytes) (id : ℕ) (small : length d < 2 ^ 62) where
  parse-data :
      (i : ℕ)
      → i < num_pieces (length d)
      → Fits (some (data_message d id i))
      → parse_metadata_response (drop 1 (data_message d id i).payload)
        ≡ ok (record { piece = pos i; d = block i d; msg_type = metadata_data })
  unfolding parse_metadata_response data_message lookup num_pieces
  parse-data i h fits =
      let v = data_dict d i in
      let size = length-append_bytes (encode v) (block i d) in
      let canonical : IsCanonical v =
        (refl, omega arith, (refl, omega arith, (refl, omega arith, tt))) in
      let back = decode_first-encode v (block i d) canonical (omega arith) in
      rw (back, drop_exact (length (encode v)) (encode v) (block i d) refl) refl

  data_message_id : (i : ℕ) → (data_message d id i).id ≡ msg_extended
  unfolding data_message
  data_message_id i = refl

  payload_length : (i : ℕ) → 2 ≤ length (data_message d id i).payload
  unfolding data_message encode
  payload_length i = omega lengths

  on_metadata-data :
      (i : ℕ) (f : Fetch)
      → i < num_pieces (length d)
      → Fits (some (data_message d id i))
      → on_metadata (length d) (data_message d id i) f ≡ receive_piece (length d) i (block i d) f
  on_metadata-data i f h fits =
      let parsed = parse-data i h fits in
      let low : ltb_ℤ (pos i) (pos 0) ≡ false = ground arith in
      let high : ltb_ℤ (pos i) (pos (num_pieces (length d))) ≡ true = ground arith in
      let long = payload_length i in
      let long_enough : ltb (length (data_message d id i).payload) 2 ≡ false = ground arith in
      unfold on_metadata in rw (data_message_id i, long_enough, parsed, low, high) refl

  expected_len-block :
      (i : ℕ) → i < num_pieces (length d) → length (block i d) ≡ expected_len (length d) i
  unfolding num_pieces
  expected_len-block i h =
      let size = length-block i d in
      elim (Bool-cases (i + 1 == num_pieces (length d))) [
        | inl last ↦ let e : i + 1 ≡ num_pieces (length d) = ground arith in rw last (omega arith)
        | inr inner ↦ let e : i + 1 ≢ num_pieces (length d) = ground arith in rw inner (omega arith)
      ]

  receive-again :
      (i : ℕ) (left : List ℕ) (f : Fetch)
      → i < num_pieces (length d)
      → contains i left ≡ false
      → IsFetch d left f
      → receive_piece (length d) i (block i d) f ≡ ok f
  receive-again i left f h out (pending, missing, size, seen) =
      let there : get_or f.received i false ≡ true = seen i h ∙ ap not out in rw there refl

  receive-new :
      (i : ℕ) (left : List ℕ) (f : Fetch)
      → i < num_pieces (length d)
      → contains i left ≡ false
      → IsFetch d (i ∷ left) f
      → (next : Fetch) × (receive_piece (length d) i (block i d) f ≡ ok next) × IsFetch d left next
  receive-new i left f h out (pending, missing, size, seen) =
      let c = block i d in
      let unseen : get_or f.received i false ≡ false = ground (arith, seen i h) in
      let whole : (length c == expected_len (length d) i) ≡ true =
        ground (arith, expected_len-block i h) in
      (
        record {
          pending = f.pending - 1;
          metadata = copy_at (i * block_size) c f.metadata;
          received = set f.received i true;
        },
        rw (unseen, whole) refl,
        (
          omega arith,
          IsMissing-block d i left f.metadata missing,
          length-set f.received i true ∙ size,
          λ j less.
              get_or-set f.received i j true false (omega arith) ∙ ground (arith, seen j less, out),
        ),
      )

  read_ended :
      (ms : List (Option Message)) (f : Fetch)
      → IsFetch d [] f
      → read_replies (length d) f ms ≡ ok d
  unfolding read_replies
  read_ended [] f (pending, missing, size, seen) =
      let ended : (f.pending == 0) ≡ true = ground arith in
      rw (ended, IsMissing-none d f.metadata missing) refl
  read_ended (none ∷ ms) f (pending, missing, size, seen) =
      let ended : (f.pending == 0) ≡ true = ground arith in
      rw (ended, IsMissing-none d f.metadata missing) refl
  read_ended (some m ∷ ms) f (pending, missing, size, seen) =
      let ended : (f.pending == 0) ≡ true = ground arith in
      rw (ended, IsMissing-none d f.metadata missing) refl

  read_replies-Answers :
      (left : List ℕ) (ms : List (Option Message)) (f : Fetch)
      → Answers d id left ms
      → All Fits ms
      → IsFetch d left f
      → read_replies (length d) f ms ≡ ok d
  unfolding read_replies
  read_replies-Answers left ms f (done ms') fits st = read_ended ms f st
  read_replies-Answers [] (m ∷ ms) f a fits st = read_ended (m ∷ ms) f st
  read_replies-Answers (i ∷ left) (none ∷ ms) f (other left' m' ms' quiet a) fits st =
      let more : (f.pending == 0) ≡ false = ground (arith, st.0) in
      rw more (read_replies-Answers (i ∷ left) ms f a fits.1 st)
  read_replies-Answers (i ∷ left) (some m ∷ ms) f (other left' m' ms' quiet a) fits st =
      let more : (f.pending == 0) ≡ false = ground (arith, st.0) in
      let skip : on_metadata (length d) m f ≡ ok f =
        let e : (m.id == msg_extended) ≡ false = ground (arith, quiet) in
        unfold on_metadata in rw e refl in
      rw (more, skip) (read_replies-Answers (i ∷ left) ms f a fits.1 st)
  read_replies-Answers (i ∷ left) (some m ∷ ms) f (repeat j left' ms' h out a) fits st =
      let more : (f.pending == 0) ≡ false = ground (arith, st.0) in
      let skip = on_metadata-data j f h fits.0 ∙ receive-again j (i ∷ left) f h out st in
      rw (more, skip) (read_replies-Answers (i ∷ left) ms f a fits.1 st)
  read_replies-Answers (i ∷ left) (some m ∷ ms) f (reply i' left' ms' h out a) fits st =
      let more : (f.pending == 0) ≡ false = ground (arith, st.0) in
      let (next, received, st') = receive-new i left f h out st in
      let got = on_metadata-data i f h fits.0 ∙ received in
      rw (more, got) (read_replies-Answers left ms next a fits.1 st')

num_pieces-covers : (n j : ℕ) → j < n → j / block_size < num_pieces n
unfolding num_pieces
num_pieces-covers n j h = omega arith

-- From a peer that supports ut_metadata and gives the size, which is positive and below the limits
-- of memory, and that sends each piece at least once, in any order, with keep-alives and messages
-- outside the extension protocol in between, the fetch gives the metadata, if its hash is the one
-- of the link.
pub fetch_metadata-Answers :
    (sha : Bytes → Bytes) (memory : ℕ) (ext : ExtHandshake) (d : Bytes) (id number : ℕ)
    (order : List ℕ) (ms : List (Option Message))
    → memory < 2 ^ 62
    → length d ≤ memory
    → 0 < length d
    → ext.metadata_size ≡ pos (length d)
    → get (codes "ut_metadata") ext.m ≡ some (pos (suc number))
    → length order ≡ num_pieces (length d)
    → ((i : ℕ) → i < num_pieces (length d) → contains i order ≡ true)
    → Answers d id order ms
    → All Fits ms
    → fetch_metadata sha memory true (some ext) (sha d) ms ≡ ok d
unfolding fetch_metadata
fetch_metadata-Answers sha memory ext d id number order ms hm fits some_bytes size named count every
      a framed =
    let n = num_pieces (length d) in
    let start : IsFetch d order (new_fetch (length d)) = (
      sym count,
      (
        length-replicate (length d) 0,
        λ j less out.
            let asked = every (j / block_size) (num_pieces-covers (length d) j less) in
            absurd (let e : true ≡ false = sym asked ∙ out in cc),
      ),
      length-replicate n false,
      λ j less. get_or-replicate n j false ∙ ap not (sym (every j less)),
    ) in
    let supported : eq_ℤ (pos (suc number)) (pos 0) ≡ false = ground arith in
    let positive : ltb_ℤ (pos 0) (pos (length d)) ≡ true = ground arith in
    let enough : ltb memory (length d) ≡ false = ground arith in
    let all =
      read_replies-Answers d id (omega arith) order ms (new_fetch (length d)) a framed start in
    rw (named, size, supported, positive, enough, all, bytes_eq_refl (sha d)) refl
