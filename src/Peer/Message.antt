-- ===== src/Peer/Message.antt =====
-- Messages, their frames on the wire, their constructors and the parsers of their payloads
-- (peer/message.go, lines 23 to 46 and 109 to 295).
use project_based_learning.Base.{
  ℕ, ◌+◌, ◌%◌, ◌^◌, Option, none, some, [], ◌∷◌, ◌++◌, ltb, ◌==◌, if◌then◌else◌, length, take, drop,
  Bytes,
}
use project_based_learning.Peer.MsgId
use project_based_learning.Base.Fallible.{Fallible, ok, err, panic, ◌>>=◌}
use project_based_learning.Base.Wire.{put_u32, get_u32}

pub record Message : Type 0 where
  pub id : ℕ
  pub payload : Bytes

-- The bytes that `WriteMessage` writes; a nil message is a keep-alive. The length is converted to
-- uint32, which drops what exceeds 32 bits.
unfoldable pub write_message : Option Message → Bytes
write_message none = 0 ∷ 0 ∷ 0 ∷ 0 ∷ []
write_message (some m) = put_u32 ((1 + length m.payload) % 2 ^ 32) ++ (m.id ∷ []) ++ m.payload

abbrev pub max_message_len : ℕ
max_message_len = 2 ^ 24

-- The body of a message of `n` bytes, off a stream that ends where the list ends.
abbrev pub split_body : Bytes → Bytes → Fallible (Option Message × Bytes)
split_body [] rest = panic
split_body (b ∷ body) rest = ok (some (record { id = b; payload = body }), rest)

unfoldable pub read_body : ℕ → Bytes → Fallible (Option Message × Bytes)
read_body n s =
    if n == 0
    then ok (none, s)
    else if ltb max_message_len n
    then err
    else if ltb (length s) n
    then err
    else split_body (take n s) (drop n s)

-- `ReadMessage`: the message and what is left of the stream.
unfoldable pub read_message : Bytes → Fallible (Option Message × Bytes)
read_message s =
    let body = get_u32 (take 4 s) >>= λ n. read_body n (drop 4 s) in
    if ltb (length s) 4 then err else body

-- The constructors.
abbrev pub new_choke : Message
new_choke = record { id = MsgId.choke; payload = [] }

abbrev pub new_unchoke : Message
new_unchoke = record { id = MsgId.unchoke; payload = [] }

abbrev pub new_interested : Message
new_interested = record { id = MsgId.interested; payload = [] }

abbrev pub new_not_interested : Message
new_not_interested = record { id = MsgId.not_interested; payload = [] }

abbrev pub new_have_all : Message
new_have_all = record { id = MsgId.have_all; payload = [] }

abbrev pub new_have_none : Message
new_have_none = record { id = MsgId.have_none; payload = [] }

abbrev pub new_have : ℕ → Message
new_have index = record { id = MsgId.have; payload = put_u32 index }

abbrev pub new_bitfield : Bytes → Message
new_bitfield bits = record { id = MsgId.bitfield; payload = bits }

abbrev pub new_request : ℕ → ℕ → ℕ → Message
new_request index begin len = record {
  id = MsgId.request;
  payload = put_u32 index ++ put_u32 begin ++ put_u32 len;
}

abbrev pub new_piece : ℕ → ℕ → Bytes → Message
new_piece index begin block = record {
  id = MsgId.piece;
  payload = put_u32 index ++ put_u32 begin ++ block;
}

abbrev pub new_cancel : ℕ → ℕ → ℕ → Message
new_cancel index begin len = record {
  id = MsgId.cancel;
  payload = put_u32 index ++ put_u32 begin ++ put_u32 len;
}

abbrev pub new_reject_request : ℕ → ℕ → ℕ → Message
new_reject_request index begin len = record {
  id = MsgId.reject_request;
  payload = put_u32 index ++ put_u32 begin ++ put_u32 len;
}

abbrev pub new_suggest_piece : ℕ → Message
new_suggest_piece index = record { id = MsgId.suggest_piece; payload = put_u32 index }

abbrev pub new_allowed_fast : ℕ → Message
new_allowed_fast index = record { id = MsgId.allowed_fast; payload = put_u32 index }

-- The payload parsers.
unfoldable pub parse_have : Bytes → Fallible ℕ
parse_have p = let index = get_u32 p in if length p == 4 then index else err

pub record RequestPayload : Type 0 where
  pub index : ℕ
  pub begin : ℕ
  pub len : ℕ

unfoldable pub parse_request : Bytes → Fallible RequestPayload
parse_request p =
    let fields = do
      index ← get_u32 (take 4 p)
      begin ← get_u32 (take 4 (drop 4 p))
      len ← get_u32 (take 4 (drop 8 p))
      ok (record { index = index; begin = begin; len = len })
    in if length p == 12 then fields else err

pub record PiecePayload : Type 0 where
  pub index : ℕ
  pub begin : ℕ
  pub block : Bytes

unfoldable pub parse_piece : Bytes → Fallible PiecePayload
parse_piece p =
    let fields = do
      index ← get_u32 (take 4 p)
      begin ← get_u32 (take 4 (drop 4 p))
      ok (record { index = index; begin = begin; block = drop 8 p })
    in if ltb (length p) 8 then err else fields
