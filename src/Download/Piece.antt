-- ===== src/Download/Piece.antt =====
-- The download of one piece from a peer (download/piece.go). The messages that the connection
-- delivers before its end are a list; `sent` is whether the writes go out. The number of a piece
-- and its length come from a torrent and are not negative. The callback for displays is left out.
pub mod Complete
pub mod Sound
pub mod Unchoke
use project_based_learning.Base.{
  ℕ, zero, suc, ◌+◌, ◌-◌, ◌*◌, ◌/◌, ◌%◌, ◌^◌, Bool, not, Option, none, some, List, [], ◌∷◌, ltb,
  leb, ◌==◌, if◌then◌else◌, length, set, replicate, Bytes,
}
use project_based_learning.Base.Fallible.{Fallible, ok, err, panic, ◌>>=◌}
use project_based_learning.Base.Wire.{bytes_eq}
use project_based_learning.Base.Assemble.{block_size, copy_at}
use project_based_learning.Peer.MsgId
use project_based_learning.Peer.Message.{Message, new_request, PiecePayload, parse_piece}

-- `makeFullBitfield`; nil and the empty slice are the same.
unfoldable pub make_full_bitfield : ℕ → Bytes
make_full_bitfield num_pieces =
    let num_bytes = (num_pieces + 7) / 8 in
    let spare = num_bytes * 8 - num_pieces in
    if ltb 0 spare
    then set (replicate num_bytes 255) (num_bytes - 1) (255 * 2 ^ spare % 256)
    else replicate num_bytes 255

abbrev pub or_full : ℕ → Option Bytes → Bytes
or_full num_pieces none = make_full_bitfield num_pieces
or_full num_pieces (some bitfield) = bitfield

-- What a message makes of the wait for an unchoke: an end, or another bitfield.
pub data Turn : Type 0 where
  stop : Fallible Bytes → Turn
  wait : Option Bytes → Turn

abbrev pub on_negotiation : Bool → ℕ → Message → Option Bytes → Turn
on_negotiation sent num_pieces m bitfield =
    if m.id == MsgId.unchoke
    then stop (if sent then ok (or_full num_pieces bitfield) else err)
    else if m.id == MsgId.bitfield
    then wait (some m.payload)
    else if m.id == MsgId.have_all
    then wait (if num_pieces == 0 then none else some (make_full_bitfield num_pieces))
    else if m.id == MsgId.have_none
    then wait none
    else if m.id == MsgId.choke
    then stop err
    else wait bitfield

abbrev pub after_turn : Turn → (Option Bytes → Fallible Bytes) → Fallible Bytes
after_turn (stop out) go_on = out
after_turn (wait next) go_on = go_on next

-- The loop of `NegotiateUnchoke`.
unfoldable pub negotiate : Bool → ℕ → Option Bytes → List (Option Message) → Fallible Bytes
negotiate sent num_pieces bitfield [] = err
negotiate sent num_pieces bitfield (none ∷ ms) = negotiate sent num_pieces bitfield ms
negotiate sent num_pieces bitfield (some m ∷ ms) =
    after_turn (on_negotiation sent num_pieces m bitfield)
      (λ next. negotiate sent num_pieces next ms)

unfoldable pub negotiate_unchoke : Bool → ℕ → List (Option Message) → Fallible Bytes
negotiate_unchoke sent num_pieces ms = negotiate sent num_pieces none ms

unfoldable pub block_count : ℕ → ℕ
block_count piece_length =
    if piece_length % block_size == 0
    then piece_length / block_size
    else piece_length / block_size + 1

-- The request for the `i`th block.
unfoldable pub block_request : ℕ → ℕ → ℕ → Message
block_request piece_index piece_length i =
    let begin = i * block_size in
    new_request piece_index begin
      (if ltb piece_length (begin + block_size) then piece_length - begin else block_size)

-- What is sent, from the `i`th block on.
unfoldable pub block_requests : ℕ → ℕ → ℕ → ℕ → List Message
block_requests piece_index piece_length i zero = []
block_requests piece_index piece_length i (suc n) =
    block_request piece_index piece_length i ∷ block_requests piece_index piece_length (i + 1) n

-- `copy(buf[begin:], block)`.
abbrev pub copy_block : PiecePayload → Bytes → Fallible Bytes
copy_block p buf = if ltb (length buf) p.begin then panic else ok (copy_at p.begin p.block buf)

-- A piece message.
abbrev pub receive_block : ℕ → ℕ → PiecePayload → Bytes → Fallible Bytes
receive_block piece_index piece_length p buf =
    if not (p.index == piece_index)
    then err
    else if ltb piece_length (p.begin + length p.block)
    then err
    else copy_block p buf

-- How many blocks are pending after a message, where more than `n` were, and the buffer.
unfoldable pub on_block : ℕ → ℕ → Message → ℕ → Bytes → Fallible (ℕ × Bytes)
on_block piece_index piece_length m n buf =
    let copied = do
      p ← parse_piece m.payload
      out ← receive_block piece_index piece_length p buf
      ok (n, out)
    in if m.id == MsgId.piece then copied else if m.id == MsgId.choke then err else ok (suc n, buf)

-- The loop that collects responses, with what `numBlocks` exceeds `received` by.
unfoldable pub collect : ℕ → ℕ → ℕ → Bytes → List (Option Message) → Fallible Bytes
collect piece_index piece_length zero buf ms = ok buf
collect piece_index piece_length (suc n) buf [] = err
collect piece_index piece_length (suc n) buf (none ∷ ms) =
    collect piece_index piece_length (suc n) buf ms
collect piece_index piece_length (suc n) buf (some m ∷ ms) =
    on_block piece_index piece_length m n buf >>= λ (pending, out).
    collect piece_index piece_length pending out ms

-- `memory` is the largest length for which `make` gives a slice.
unfoldable pub download_blocks : ℕ → Bool → ℕ → ℕ → List (Option Message) → Fallible Bytes
download_blocks memory sent piece_index piece_length ms =
    let collected =
      collect piece_index piece_length (block_count piece_length) (replicate piece_length 0) ms
      >>= λ buf. if sent then ok buf else err in
    if ltb memory piece_length then panic else collected

module _ (sha : Bytes → Bytes) (memory : ℕ) where
  unfoldable pub download_and_verify : Bool → ℕ → ℕ → Bytes → List (Option Message) → Fallible Bytes
  download_and_verify sent piece_index piece_length expected ms =
      download_blocks memory sent piece_index piece_length ms >>= λ buf.
      if bytes_eq (sha buf) expected then ok buf else err
