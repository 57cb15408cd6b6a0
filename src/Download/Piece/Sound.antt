-- ===== src/Download/Piece/Sound.antt =====
-- What a download gives, whatever the peer sends.
use project_based_learning.Base.{
  ℕ, ◌≡◌, Bool, Option, List, if◌then◌else◌, length, replicate, Bytes,
}
use project_based_learning.Base.Fallible.{Fallible, ok, err, panic, ◌>>=◌}
use project_based_learning.Base.Wire.{bytes_eq}
use project_based_learning.Peer.MsgId
use project_based_learning.Peer.Message.{Message}
use project_based_learning.Download.Piece.{block_count, collect}

-- A result without a panic, whose value satisfies a predicate.
abbrev pub Ensures {ℓ} : {A : Type ℓ} → (A → Type 0) → Fallible A → Type 0
Ensures P (ok a) = P a
Ensures P err = Unit
Ensures P panic = ⊥

module _ (piece_index piece_length : ℕ) where
  -- The buffer keeps its length.
  abbrev Sized : ℕ × Bytes → Type 0
  Sized (n, out) = length out ≡ piece_length

-- The same, with what a panic tells.
abbrev pub EnsuresUnless {ℓ} : {A : Type ℓ} → Type 0 → (A → Type 0) → Fallible A → Type 0
EnsuresUnless Q P (ok a) = P a
EnsuresUnless Q P err = Unit
EnsuresUnless Q P panic = Q

module _ (sha : Bytes → Bytes) (sent : Bool) (piece_index piece_length : ℕ) (expected : Bytes)
    (ms : List (Option Message)) where
  abbrev IsWhole : Bytes → Type 0
  IsWhole out = (length out ≡ piece_length) × (sha out ≡ expected)

  abbrev with_memory : Fallible Bytes
  with_memory =
      collect piece_index piece_length (block_count piece_length) (replicate piece_length 0) ms
      >>= (λ buf. if sent then ok buf else err)
      >>= (λ buf. if bytes_eq (sha buf) expected then ok buf else err)
