-- ===== src/Download/Piece/Complete.antt =====
-- A download from a peer that answers, and what a download gives from any peer.
use project_based_learning.Base.{
  ℕ, ◌+◌, ◌-◌, ◌*◌, ◌/◌, ◌%◌, ◌^◌, ◌<◌, ◌≤◌, ◌≡◌, ◌≢◌, refl, sym, ap, ◌∙◌, true, false, Option,
  none, some, List, [], ◌∷◌, ltb, ◌==◌, if◌then◌else◌, arith, length, length-replicate, take, drop,
  take_all, length-drop, replicate, Bytes, All, All-map, contains, Bool-cases, inl, inr,
}
use project_based_learning.Base.Fallible.{Fallible, ok, ◌>>=◌}
use project_based_learning.Base.Wire.{IsU32, bytes_eq_refl}
use project_based_learning.Base.Assemble.{
  block_size, copy_at, block, length-block, IsMissing, IsMissing-none, IsMissing-block,
}
use project_based_learning.Peer.MsgId
use project_based_learning.Peer.Message.{Message, new_piece, RequestPayload, parse_request}
use project_based_learning.Peer.Payload.{parse_request-new, parse_piece-new}
use project_based_learning.Download.Piece.{
  block_count, block_request, on_block, collect, download_blocks, download_and_verify,
}

-- A peer that has the piece answers a request with the bytes that it names.
abbrev pub answer : Bytes → RequestPayload → Message
answer d r = new_piece r.index r.begin (take r.len (drop r.begin d))

unfoldable pub serve : Bytes → Message → Fallible Message
serve d m = parse_request m.payload >>= λ r. ok (answer d r)

-- A message that the download skips.
abbrev pub IsQuiet : Option Message → Type 0
IsQuiet none = Unit {0}
IsQuiet (some m) = (m.id ≢ MsgId.piece) × (m.id ≢ MsgId.choke)

-- The messages answer the requests for the listed blocks, in that order, with others in between
-- and behind.
pub data Answers (d : Bytes) (piece_index : ℕ) : List ℕ → List (Option Message) → Type 0 where
  done : (ms : List (Option Message)) → Answers d piece_index [] ms
  other :
      (left : List ℕ) (m : Option Message) (ms : List (Option Message))
      → IsQuiet m
      → Answers d piece_index left ms
      → Answers d piece_index left (m ∷ ms)
  reply :
      (i : ℕ) (left : List ℕ) (m : Message) (ms : List (Option Message))
      → serve d (block_request piece_index (length d) i) ≡ ok m
      → Answers d piece_index left ms
      → Answers d piece_index (i ∷ left) (some m ∷ ms)

block_count_bounds : (n i : ℕ) → i < block_count n → i * block_size < n
unfolding block_count
block_count_bounds n i h = elim (Bool-cases (n % block_size == 0)) [
  | inl whole ↦ let c = rw whole at h in let e : n % block_size ≡ 0 = ground arith in omega arith
  | inr more ↦ let c = rw more at h in let e : n % block_size ≢ 0 = ground arith in omega arith
]

block_count-covers : (n j : ℕ) → j < n → j / block_size < block_count n
unfolding block_count
block_count-covers n j h = elim (Bool-cases (n % block_size == 0)) [
  | inl whole ↦ let e : n % block_size ≡ 0 = ground arith in rw whole (omega arith)
  | inr more ↦ rw more (omega arith)
]

take-min : (n : ℕ) (d : Bytes) → length d < n → take (length d) d ≡ take n d
take-min n d h = take_all (length d) d (omega arith) ∙ sym (take_all n d (omega arith))

cut-block :
    (d : Bytes) (i : ℕ)
    → take
        (if ltb (length d) (i * block_size + block_size)
          then length d - i * block_size
          else block_size)
        (drop (i * block_size) d)
      ≡ block i d
unfolding block
cut-block d i = elim (Bool-cases (ltb (length d) (i * block_size + block_size))) [
  | inl short ↦
      let size = length-drop (i * block_size) d in
      let less : length d < i * block_size + block_size = ground arith in
      rw (short, ← size) (take-min block_size (drop (i * block_size) d) (omega arith))
  | inr whole ↦ rw whole refl
]

serve-block :
    (d : Bytes) (piece_index i : ℕ)
    → IsU32 piece_index
    → length d < 2 ^ 32
    → i * block_size < length d
    → serve d (block_request piece_index (length d) i)
      ≡ ok (new_piece piece_index (i * block_size) (block i d))
unfolding serve block_request
serve-block d piece_index i hp hd h =
    let begin = i * block_size in
    let len = if ltb (length d) (begin + block_size) then length d - begin else block_size in
    let fits : IsU32 len = elim (Bool-cases (ltb (length d) (begin + block_size))) [
      | inl short ↦ rw short (omega arith)
      | inr whole ↦ rw whole (omega arith)
    ] in
    rw (parse_request-new piece_index begin len hp (omega arith) fits, cut-block d i) refl

module _ (d : Bytes) (piece_index : ℕ) (hp : IsU32 piece_index) (hd : length d < 2 ^ 32) where
  on_block-reply :
      (i n : ℕ) (m : Message) (buf : Bytes)
      → i * block_size < length d
      → length buf ≡ length d
      → serve d (block_request piece_index (length d) i) ≡ ok m
      → on_block piece_index (length d) m n buf ≡ ok (n, copy_at (i * block_size) (block i d) buf)
  unfolding on_block
  on_block-reply i n m buf h size e =
      let begin = i * block_size in
      let c = block i d in
      let is_reply : ok m ≡ ok (new_piece piece_index begin c) =
        sym e ∙ serve-block d piece_index i hp hd h in
      let same : m ≡ new_piece piece_index begin c = cc in
      let c_length = length-block i d in
      let index : (piece_index == piece_index) ≡ true = ground arith in
      let inside : ltb (length d) (begin + length c) ≡ false = ground arith in
      let placed : ltb (length buf) begin ≡ false = ground arith in
      rw (same, parse_piece-new piece_index begin c hp (omega arith), index, inside, placed) refl

  collect-Answers :
      (left : List ℕ) (ms : List (Option Message)) (buf : Bytes)
      → Answers d piece_index left ms
      → All (λ i. i * block_size < length d) left
      → IsMissing d left buf
      → collect piece_index (length d) (length left) buf ms ≡ ok d
  unfolding collect
  collect-Answers left ms buf (done ms') v missing = ap ok (IsMissing-none d buf missing)
  collect-Answers [] (m ∷ ms) buf (other left' m' ms' quiet a) v missing =
      ap ok (IsMissing-none d buf missing)
  collect-Answers (i ∷ left) (none ∷ ms) buf (other left' m' ms' quiet a) v missing =
      collect-Answers (i ∷ left) ms buf a v missing
  collect-Answers (i ∷ left) (some m ∷ ms) buf (other left' m' ms' quiet a) v missing =
      let skip : on_block piece_index (length d) m (length left) buf ≡ ok (length (i ∷ left), buf) =
        unfold on_block in ground (arith, quiet) in
      rw skip (collect-Answers (i ∷ left) ms buf a v missing)
  collect-Answers (i ∷ left) (some m ∷ ms) buf (reply i' left' m' ms' e a) v missing =
      rw (on_block-reply i (length left) m buf v.0 missing.0 e) (
        collect-Answers left ms (copy_at (i * block_size) (block i d) buf) a v.1
          (IsMissing-block d i left buf missing))

-- From a peer that answers each request for a block once, in any order, with keep-alives and
-- messages in between that are neither blocks nor chokes, the download gives the piece, for a piece
-- below 4 GiB, for which there is memory, and whose hash is the one expected.
pub download_and_verify-Answers :
    (sha : Bytes → Bytes) (memory : ℕ) (d : Bytes) (piece_index : ℕ) (order : List ℕ)
    (ms : List (Option Message))
    → IsU32 piece_index
    → length d < 2 ^ 32
    → length d ≤ memory
    → length order ≡ block_count (length d)
    → All (λ i. i < block_count (length d)) order
    → ((i : ℕ) → i < block_count (length d) → contains i order ≡ true)
    → Answers d piece_index order ms
    → download_and_verify sha memory true piece_index (length d) (sha d) ms ≡ ok d
unfolding download_and_verify download_blocks
download_and_verify-Answers sha memory d piece_index order ms hp hd room count inside every a =
    let missing : IsMissing d order (replicate (length d) 0) = (
      length-replicate (length d) 0,
      λ j less out.
          let asked = every (j / block_size) (block_count-covers (length d) j less) in
          absurd (let e : true ≡ false = sym asked ∙ out in cc),
    ) in
    let enough : ltb memory (length d) ≡ false = ground (arith, room) in
    let v = All-map _ _ (λ i h. block_count_bounds (length d) i h) order inside in
    rw
      (
        enough,
        ← count,
        collect-Answers d piece_index hp hd order ms (replicate (length d) 0) a v missing,
        bytes_eq_refl (sha d),
      )
      refl
