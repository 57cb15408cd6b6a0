-- ===== src/Peer/Framing.antt =====
-- Frames: what `WriteMessage` writes, `ReadMessage` reads, also off a stream of frames.
use project_based_learning.Base.{
  ℕ, zero, suc, ◌+◌, ◌*◌, ◌%◌, ◌^◌, ◌≤◌, ◌<◌, ◌≡◌, ◌≢◌, refl, Option, none, some, [], ◌∷◌, ◌++◌,
  arith, length, length-append, take, drop, take-append, drop-append, Bytes,
}
use project_based_learning.Base.Fallible.{ok, err, panic}
use project_based_learning.Base.Wire.{get_u32-put}
use project_based_learning.Peer.Message.{
  Message, write_message, max_message_len, split_body, read_body, read_message,
}

-- A message that the reader accepts: its identifier and payload fill at most 16 MiB.
abbrev pub Fits : Option Message → Type 0
Fits none = Unit {0}
Fits (some m) = 1 + length m.payload ≤ max_message_len

read_body-frame :
    (m : Message) (rest : Bytes)
    → Fits (some m)
    → read_body (1 + length m.payload) (m.id ∷ (m.payload ++ rest)) ≡ ok (some m, rest)
unfolding read_body
read_body-frame m rest h =
    let e : 1 + length m.payload ≡ suc (length m.payload) = omega arith in
    rw (e, take-append m.payload rest, drop-append m.payload rest)
      (ground (arith, length-append m.payload rest))

-- A frame read off the front of a stream gives the message and leaves the rest of the stream.
pub read-write_message :
    (m : Option Message) (rest : Bytes)
    → Fits m
    → read_message (write_message m ++ rest) ≡ ok (m, rest)
unfolding read_message write_message
read-write_message none rest h = unfold read_body in ground arith
read-write_message (some m) rest h =
    let n = (1 + length m.payload) % 2 ^ 32 in
    let e : n ≡ 1 + length m.payload = omega arith in
    ground (arith, e, get_u32-put n [] (omega arith), read_body-frame m rest h)

-- A frame with a payload of 16 MiB or more, below 4 GiB, is refused.
pub read-write_too_large :
    (m : Message) (rest : Bytes)
    → max_message_len ≤ length m.payload
    → 1 + length m.payload < 2 ^ 32
    → read_message (write_message (some m) ++ rest) ≡ err
unfolding read_message write_message read_body
read-write_too_large m rest h fits =
    let n = (1 + length m.payload) % 2 ^ 32 in
    let e : n ≡ 1 + length m.payload = omega arith in
    ground (arith, e, get_u32-put n [] (omega arith))

split_body-ne-panic :
    (n : ℕ) (s rest : Bytes) → n ≢ 0 → n ≤ length s → split_body (take n s) rest ≢ panic
split_body-ne-panic zero s rest h le = absurd (h refl)
split_body-ne-panic (suc n) [] rest h le = absurd (omega arith)
split_body-ne-panic (suc n) (b ∷ s) rest h le = cc

read_body-ne-panic : (n : ℕ) (s : Bytes) → read_body n s ≢ panic
unfolding read_body
read_body-ne-panic n s = ground (arith, split_body-ne-panic n s (drop n s))

-- Whatever a stream holds, reading a message from it does not panic.
pub read_message-ne-panic : (s : Bytes) → read_message s ≢ panic
unfolding read_message
read_message-ne-panic (a ∷ b ∷ c ∷ d ∷ s) =
    ground (arith, read_body-ne-panic (a * 2 ^ 24 + b * 2 ^ 16 + c * 2 ^ 8 + d) s)
read_message-ne-panic s = ground arith
