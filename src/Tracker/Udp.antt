-- ===== src/Tracker/Udp.antt =====
-- Announces to a UDP tracker (tracker/udp.go, with AnnounceParams of tracker/tracker.go). The
-- socket is a parameter: what happens to a request at each attempt. The parse of the URL and the name lookup
-- come before; the random numbers are arguments.
pub mod Options
pub mod Answer
use project_based_learning.Base.{
  ℕ, zero, suc, ◌+◌, ◌-◌, ◌*◌, ◌/◌, ◌%◌, ◌^◌, ℤ, pos, negsuc, Bool, not, ◌&&◌, List, [], ◌∷◌, ◌++◌,
  ltb, leb, ◌==◌, if◌then◌else◌, length, take, drop, Bytes, codes,
}
use project_based_learning.Base.Wire.{put_u16, put_u32, bytes_eq}
use project_based_learning.Base.Outcome.{Outcome, ok, err, ◌>>=◌}
use project_based_learning.Tracker.Response.{Response, parse_compact_peers}

abbrev pub udp_protocol_id : ℕ
udp_protocol_id = 4497486125440

abbrev pub max_retries : ℕ
max_retries = 4

-- The hash and the identifier have 20 bytes; the numbers have 64 bits, the port 16.
pub record AnnounceParams : Type 0 where
  pub info_hash : Bytes
  pub peer_id : Bytes
  pub port : ℕ
  pub uploaded : ℤ
  pub downloaded : ℤ
  pub left : ℤ
  pub event : Bytes
  pub num_want : ℤ

-- What one attempt comes to: the write fails, the read runs into its deadline, it fails otherwise,
-- or a packet arrives.
pub data Attempt : Type 0 where
  unsent timeout failed : Attempt
  arrived : Bytes → Attempt

-- `Uint32` and `Uint64` of bytes that are there.
abbrev pub u32_of : Bytes → ℕ
u32_of (a ∷ b ∷ c ∷ e ∷ d) = a * 2 ^ 24 + b * 2 ^ 16 + c * 2 ^ 8 + e
u32_of d = 0

abbrev pub u64_of : Bytes → ℕ
u64_of d = u32_of d * 2 ^ 32 + u32_of (drop 4 d)

-- `PutUint64`.
abbrev pub put_u64 : ℕ → Bytes
put_u64 x = put_u32 (x / 2 ^ 32) ++ put_u32 x

-- The conversion to `uint64`.
abbrev pub to_u64 : ℤ → ℕ
to_u64 (pos n) = n % 2 ^ 64
to_u64 (negsuc n) = 2 ^ 64 - 1 - n % 2 ^ 64

-- A packet that was read. An error of the tracker is an error too; its text is not kept.
abbrev pub received : ℕ → Bytes → Outcome Bytes
received min_resp d =
    if ltb (length d) min_resp then err else if leb 8 (length d) && u32_of d == 3 then err else ok d

-- A read takes 4096 bytes at most; after a timeout the next attempt follows.
abbrev pub on_attempt : ℕ → Attempt → Outcome Bytes → Outcome Bytes
on_attempt min_resp unsent next = err
on_attempt min_resp timeout next = next
on_attempt min_resp failed next = err
on_attempt min_resp (arrived d) next = received min_resp (take 4096 d)

abbrev pub opt_url_data : ℕ
opt_url_data = 2

-- The loop over the segments: the length of the data is enough fuel.
unfoldable pub url_chunks : ℕ → Bytes → Bytes
url_chunks zero d = []
url_chunks (suc fuel) d =
    let chunk = take 255 d in
    let rest = url_chunks fuel (drop (length chunk) d) in
    if ltb 0 (length d) then opt_url_data ∷ length chunk % 256 ∷ (chunk ++ rest) else []

unfoldable pub encode_url_data_option : Bytes → Bytes
unfolding url_chunks
encode_url_data_option path_query =
    let opts = url_chunks (length path_query) path_query in
    if length opts == 0 then opt_url_data ∷ 0 ∷ [] else opts

abbrev pub event_code : Bytes → ℕ
event_code event =
    if bytes_eq event (codes "completed")
    then 1
    else if bytes_eq event (codes "started")
    then 2
    else if bytes_eq event (codes "stopped")
    then 3
    else 0

-- -1 asks for the default; a wish is cut to 32 bits.
abbrev pub num_want_code : ℤ → ℕ
num_want_code (pos zero) = 2 ^ 32 - 1
num_want_code (pos (suc n)) = suc n % 2 ^ 32
num_want_code (negsuc n) = 2 ^ 32 - 1

unfoldable pub connect_request : ℕ → Bytes
connect_request txn = put_u64 udp_protocol_id ++ (put_u32 0 ++ put_u32 txn)

-- The numbers of a transfer, and what follows them.
abbrev pub put_numbers : ℕ → AnnounceParams → Bytes → Bytes
put_numbers key p options =
    put_u64 (to_u64 p.downloaded)
    ++ (put_u64 (to_u64 p.left)
        ++ (put_u64 (to_u64 p.uploaded)
            ++ (put_u32 (event_code p.event)
                ++ (put_u32 0
                    ++ (put_u32 key
                        ++ (put_u32 (num_want_code p.num_want) ++ (put_u16 p.port ++ options)))))))

unfoldable pub announce_request : ℕ → ℕ → ℕ → AnnounceParams → Bytes → Bytes
announce_request conn_id txn key p path_query =
    put_u64 conn_id
    ++ (put_u32 1
        ++ (put_u32 txn
            ++ (p.info_hash
                ++ (p.peer_id ++ put_numbers key p (encode_url_data_option path_query)))))

-- The checks on the answers.
abbrev pub connected : ℕ → Bytes → Outcome ℕ
connected txn resp =
    if not (u32_of resp == 0)
    then err
    else if not (u32_of (drop 4 resp) == txn)
    then err
    else ok (u64_of (drop 8 resp))

abbrev pub announced : ℕ → Bytes → Outcome Response
announced txn resp =
    if not (u32_of resp == 1)
    then err
    else if not (u32_of (drop 4 resp) == txn)
    then err
    else parse_compact_peers (drop 20 resp) >>= λ peers. ok (record {
      interval = pos (u32_of (drop 8 resp));
      peers = peers;
      complete = pos (u32_of (drop 16 resp));
      incomplete = pos (u32_of (drop 12 resp));
      external_ip = [];
    })

module _ (net : Bytes → ℕ → Attempt) where
  -- The attempts from the `n`th on, as many as are left.
  unfoldable pub attempts : Bytes → ℕ → ℕ → ℕ → Outcome Bytes
  attempts req min_resp zero n = err
  attempts req min_resp (suc more) n =
      on_attempt min_resp (net req n) (attempts req min_resp more (n + 1))

  unfoldable pub udp_round_trip : Bytes → ℕ → Outcome Bytes
  udp_round_trip req min_resp = attempts req min_resp max_retries 0

  unfoldable pub udp_connect : ℕ → Outcome ℕ
  udp_connect txn = udp_round_trip (connect_request txn) 16 >>= connected txn

  unfoldable pub udp_announce : ℕ → ℕ → ℕ → AnnounceParams → Bytes → Outcome Response
  udp_announce conn_id txn key p path_query =
      udp_round_trip (announce_request conn_id txn key p path_query) 20 >>= announced txn

  unfoldable pub announce_udp : ℕ → ℕ → ℕ → AnnounceParams → Bytes → Outcome Response
  announce_udp txn txn_2 key p path_query =
      udp_connect txn >>= λ conn_id. udp_announce conn_id txn_2 key p path_query
