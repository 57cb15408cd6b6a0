-- ===== src/Magnet/Metadata/Sound.antt =====
-- What a fetch of metadata gives (magnet/metadata.go), whatever the peer sends.
use project_based_learning.Base.{
  ℕ, ◌*◌, ◌≡◌, ◌∙◌, pos, pos_part, ltb_ℤ, eq_ℤ, Bool, false, not, ◌||◌, Option, none, some, List,
  [], ◌∷◌, ltb, ◌==◌, if◌then◌else◌, length, length-replicate, drop, get_or, Bytes, Bool-cases,
  Option-cases, inl, inr, codes,
}
use project_based_learning.Base.Outcome.{Outcome, ok, err, panic, out_of_fuel, ◌>>=◌}
use project_based_learning.Base.Wire.{bytes_eq, bytes_eq→eq}
use project_based_learning.Base.Assoc.{get}
use project_based_learning.Base.Assemble.{block_size, length-copy_at}
use project_based_learning.Peer.Message.{Message}
use project_based_learning.Peer.Extension.{msg_extended, ExtHandshake}
use project_based_learning.Magnet.Metadata.{
  metadata_reject, metadata_data, Reply, parse_metadata_response, Fetch, num_pieces, expected_len,
  receive_piece, receive_reply, after_parse, on_metadata, read_replies, new_fetch, fetch_metadata,
}

-- A predicate of the value, if there is one.
abbrev pub Yields {ℓ} : {A : Type ℓ} → (A → Type 0) → Outcome A → Type 0
Yields P (ok a) = P a
Yields P err = Unit
Yields P panic = Unit
Yields P out_of_fuel = Unit

module _ (size : ℕ) where
  abbrev Sized : Fetch → Type 0
  Sized f = length f.metadata ≡ size

  receive_piece-Yields :
      (i : ℕ) (d : Bytes) (f : Fetch) → Sized f → Yields Sized (receive_piece size i d f)
  receive_piece-Yields i d f h = elim (Bool-cases (get_or f.received i false)) [
    | inl known ↦ rw known h
    | inr new ↦ elim (Bool-cases (length d == expected_len size i)) [
      | inr wrong ↦ rw (new, wrong) tt
      | inl right ↦ rw (new, right) (length-copy_at (i * block_size) d f.metadata ∙ h)
    ]
  ]

  receive_reply-Yields : (r : Reply) (f : Fetch) → Sized f → Yields Sized (receive_reply size r f)
  receive_reply-Yields r f h = elim (Bool-cases (eq_ℤ r.msg_type metadata_reject)) [
    | inl reject ↦ rw reject tt
    | inr other ↦ elim (Bool-cases (eq_ℤ r.msg_type metadata_data)) [
      | inr unknown ↦ rw (other, unknown) h
      | inl carries ↦
          elim (Bool-cases (ltb_ℤ r.piece (pos 0) || not (ltb_ℤ r.piece (pos (num_pieces size))))) [
            | inl out ↦ rw (other, carries, out) h
            | inr inside ↦
                rw (other, carries, inside) (receive_piece-Yields (pos_part r.piece) r.d f h)
          ]
    ]
  ]

  after_parse-Yields :
      (o : Outcome Reply) (f : Fetch) → Sized f → Yields Sized (after_parse size o f)
  after_parse-Yields (ok r) f h = receive_reply-Yields r f h
  after_parse-Yields err f h = h
  after_parse-Yields panic f h = tt
  after_parse-Yields out_of_fuel f h = tt

  on_metadata-Yields : (m : Message) (f : Fetch) → Sized f → Yields Sized (on_metadata size m f)
  unfolding on_metadata
  on_metadata-Yields m f h =
      elim (Bool-cases (not (m.id == msg_extended) || ltb (length m.payload) 2)) [
        | inl skipped ↦ rw skipped h
        | inr read ↦ rw read (after_parse-Yields (parse_metadata_response (drop 1 m.payload)) f h)
      ]

  Yields-bind :
      (o : Outcome Fetch) (next : Fetch → Outcome Bytes)
      → Yields Sized o
      → ((f : Fetch) → Sized f → Yields (λ d. length d ≡ size) (next f))
      → Yields (λ d. length d ≡ size) (o >>= next)
  Yields-bind (ok f) next h step = step f h
  Yields-bind err next h step = tt
  Yields-bind panic next h step = tt
  Yields-bind out_of_fuel next h step = tt

  read_replies-Yields :
      (f : Fetch) (ms : List (Option Message))
      → Sized f
      → Yields (λ d. length d ≡ size) (read_replies size f ms)
  unfolding read_replies
  read_replies-Yields f [] h = elim (Bool-cases (f.pending == 0)) [
    | inl done ↦ rw done h
    | inr open_yet ↦ rw open_yet tt
  ]
  read_replies-Yields f (none ∷ ms) h = elim (Bool-cases (f.pending == 0)) [
    | inl done ↦ rw done h
    | inr open_yet ↦ rw open_yet (read_replies-Yields f ms h)
  ]
  read_replies-Yields f (some m ∷ ms) h = elim (Bool-cases (f.pending == 0)) [
    | inl done ↦ rw done h
    | inr open_yet ↦ rw open_yet (
        Yields-bind (on_metadata size m f) _ (on_metadata-Yields m f h)
          (λ next k. read_replies-Yields next ms k))
  ]

checked :
    (sha : Bytes → Bytes) (size : ℕ) (info_hash : Bytes) (o : Outcome Bytes)
    → Yields (λ d. length d ≡ size) o
    → Yields
        (λ d. (length d ≡ size) × (sha d ≡ info_hash))
        (o >>= λ d. if bytes_eq (sha d) info_hash then ok d else err)
checked sha size info_hash (ok d) h = elim (Bool-cases (bytes_eq (sha d) info_hash)) [
  | inl same ↦ rw same (h, bytes_eq→eq (sha d) info_hash same)
  | inr other ↦ rw other tt
]
checked sha size info_hash err h = tt
checked sha size info_hash panic h = tt
checked sha size info_hash out_of_fuel h = tt

-- Metadata that a fetch gives, whatever the peer sends, has the size that the peer reported and the
-- hash of the link.
pub fetch_metadata-Yields :
    (sha : Bytes → Bytes) (memory : ℕ) (sent : Bool) (ext : ExtHandshake) (info_hash : Bytes)
    (ms : List (Option Message))
    → Yields
        (λ d. (length d ≡ pos_part ext.metadata_size) × (sha d ≡ info_hash))
        (fetch_metadata sha memory sent (some ext) info_hash ms)
unfolding fetch_metadata
fetch_metadata-Yields sha memory sent ext info_hash ms =
    elim (Option-cases (get (codes "ut_metadata") ext.m)) [
      | inl unsupported ↦ rw unsupported tt
      | inr (id, e) ↦ elim (Bool-cases (eq_ℤ id (pos 0))) [
        | inl off ↦ rw (e, off) tt
        | inr on ↦ elim (Bool-cases (ltb_ℤ (pos 0) ext.metadata_size)) [
          | inr no_size ↦ rw (e, on, no_size) tt
          | inl sized ↦
              let size = pos_part ext.metadata_size in
              elim (Bool-cases (ltb memory size)) [
                | inl huge ↦ rw (e, on, sized, huge) tt
                | inr fits ↦ elim (Bool-cases sent) [
                  | inr lost ↦ rw (e, on, sized, fits, lost) tt
                  | inl went ↦
                      rw (e, on, sized, fits, went)
                        (checked sha size info_hash (read_replies size (new_fetch size) ms)
                          (read_replies-Yields size (new_fetch size) ms (length-replicate size 0)))
                ]
              ]
        ]
      ]
    ]
