-- ===== src/Peer/Payload.antt =====
-- Payloads: each parser inverts its constructors, and accepts nothing else.
use project_based_learning.Base.{
  ℕ, ◌+◌, ◌*◌, ◌^◌, ◌<◌, ◌≡◌, ◌≢◌, ◌⊎◌, inl, inr, refl, [], ◌∷◌, arith, length, Bytes, IsByte, All,
}
use project_based_learning.Base.Fallible.{ok, err}
use project_based_learning.Base.Wire.{get_u32-put, IsU32}
use project_based_learning.Peer.Message.{
  new_have, new_request, new_piece, parse_have, RequestPayload, parse_request, PiecePayload,
  parse_piece,
}

pub parse_have-new : (index : ℕ) → IsU32 index → parse_have (new_have index).payload ≡ ok index
unfolding parse_have
parse_have-new index h = get_u32-put index [] h

pub parse_request-new :
    (index begin len : ℕ)
    → IsU32 index
    → IsU32 begin
    → IsU32 len
    → parse_request (new_request index begin len).payload
      ≡ ok (record { index = index; begin = begin; len = len })
unfolding parse_request
parse_request-new index begin len hi hb hl = ground arith

pub parse_piece-new :
    (index begin : ℕ) (block : Bytes)
    → IsU32 index
    → IsU32 begin
    → parse_piece (new_piece index begin block).payload
      ≡ ok (record { index = index; begin = begin; block = block })
unfolding parse_piece
parse_piece-new index begin block hi hb = ground arith

-- A request payload parses exactly if it has 12 bytes, and then it is what the constructor writes.
pub parse_request_cases :
    (p : Bytes)
    → All IsByte p
    → ((length p ≢ 12) × (parse_request p ≡ err))
      ⊎ ((r : RequestPayload) × (parse_request p ≡ ok r)
          × ((new_request r.index r.begin r.len).payload ≡ p))
unfolding parse_request
parse_request_cases (a ∷ b ∷ c ∷ d ∷ e ∷ f ∷ g ∷ h ∷ i ∷ j ∷ k ∷ l ∷ []) hp = inr (
  record {
    index = a * 2 ^ 24 + b * 2 ^ 16 + c * 2 ^ 8 + d;
    begin = e * 2 ^ 24 + f * 2 ^ 16 + g * 2 ^ 8 + h;
    len = i * 2 ^ 24 + j * 2 ^ 16 + k * 2 ^ 8 + l;
  },
  refl,
  ground arith,
)
parse_request_cases p hp = inl (omega arith, ground arith)

-- A piece payload parses exactly if it has 8 bytes at least, and then it is what the constructor
-- writes.
pub parse_piece_cases :
    (p : Bytes)
    → All IsByte p
    → ((length p < 8) × (parse_piece p ≡ err))
      ⊎ ((r : PiecePayload) × (parse_piece p ≡ ok r)
          × ((new_piece r.index r.begin r.block).payload ≡ p))
unfolding parse_piece
parse_piece_cases (a ∷ b ∷ c ∷ d ∷ e ∷ f ∷ g ∷ h ∷ block) hp = inr (
  record {
    index = a * 2 ^ 24 + b * 2 ^ 16 + c * 2 ^ 8 + d;
    begin = e * 2 ^ 24 + f * 2 ^ 16 + g * 2 ^ 8 + h;
    block = block;
  },
  ground arith,
  ground arith,
)
parse_piece_cases p hp = inl (omega arith, ground arith)
