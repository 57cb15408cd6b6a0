-- ===== src/Tracker/Response.antt =====
-- Peers and answers of trackers (tracker/tracker.go). `net.ParseIP` is the parameter `parse_ip`,
-- which gives the form of 16 bytes, or none for nil.
pub mod Compact
pub mod Answer
use project_based_learning.Base.{
  ℕ, zero, suc, ◌+◌, ◌-◌, ◌*◌, ◌/◌, ◌%◌, ◌^◌, ℤ, pos, negsuc, Bool, not, Option, none, some, List,
  [], ◌∷◌, ◌++◌, ◌==◌, if◌then◌else◌, length, take, drop, Bytes, codes,
}
use project_based_learning.Base.Outcome.{Outcome, ok, err, ◌>>=◌, or_err}
use project_based_learning.Net.{v4_prefix}
use project_based_learning.Bencode.Value.{Value, Items, Entries, str, int, list, dict, nil, cons}
use project_based_learning.Bencode.Decode.{decode}
use project_based_learning.Bencode.Access.{as_dict, lookup, str_at, int_at, is_some, from_bencode}

pub record Peer : Type 0 where
  pub ip : Bytes
  pub port : ℕ

-- An address of no bytes is nil.
pub record Response : Type 0 where
  pub interval : ℤ
  pub peers : List Peer
  pub complete : ℤ
  pub incomplete : ℤ
  pub external_ip : Bytes

-- `Uint16` of two bytes that are there.
abbrev pub u16_of : Bytes → ℕ
u16_of (a ∷ b ∷ d) = a * 2 ^ 8 + b
u16_of d = 0

-- The loops over `n` compact peers with addresses of `ip_len` bytes.
unfoldable pub read_peers : ℕ → ℕ → Bytes → List Peer
read_peers ip_len zero d = []
read_peers ip_len (suc n) d =
    record { ip = take ip_len d; port = u16_of (drop ip_len d) }
    ∷ read_peers ip_len n (drop (ip_len + 2) d)

unfoldable pub parse_compact_peers : Bytes → Outcome (List Peer)
parse_compact_peers d = if not (length d % 6 == 0) then err else ok (read_peers 4 (length d / 6) d)

unfoldable pub parse_compact_peers_6 : Bytes → Outcome (List Peer)
parse_compact_peers_6 d =
    if not (length d % 18 == 0) then err else ok (read_peers 16 (length d / 18) d)

-- The conversion to `uint16`.
abbrev pub to_u16 : ℤ → ℕ
to_u16 (pos n) = n % 2 ^ 16
to_u16 (negsuc n) = 2 ^ 16 - 1 - n % 2 ^ 16

abbrev pub or_zero : Option ℤ → ℤ
or_zero none = pos 0
or_zero (some n) = n

-- What the tracker sees as our address; other lengths are ignored.
abbrev pub external_ip_of : Option Bytes → Bytes
external_ip_of none = []
external_ip_of (some raw) =
    if length raw == 4 then v4_prefix ++ raw else if length raw == 16 then raw else []

module _ (parse_ip : Bytes → Option Bytes) where
  abbrev pub dict_peer : Value → Outcome Peer
  dict_peer v = do
    d ← or_err (as_dict v)
    ip ← or_err (str_at (codes "ip") d)
    port ← or_err (int_at (codes "port") d)
    parsed ← or_err (parse_ip ip)
    ok (record { ip = parsed; port = to_u16 port })

  unfoldable pub parse_dict_peers : Items → Outcome (List Peer)
  parse_dict_peers nil = ok []
  parse_dict_peers (cons v xs) = do p ← dict_peer v; peers ← parse_dict_peers xs; ok (p ∷ peers)

  -- The peers of BEP 7 come behind the others.
  abbrev pub add_peers_6 : Option Bytes → List Peer → Outcome (List Peer)
  add_peers_6 none peers = ok peers
  add_peers_6 (some s) peers = parse_compact_peers_6 s >>= λ more. ok (peers ++ more)

  -- Without the key peers the answer is done, and peers6 is not read.
  abbrev pub peers_in : Entries → Option Value → Outcome (List Peer)
  peers_in d none = ok []
  peers_in d (some (str s)) = parse_compact_peers s >>= add_peers_6 (str_at (codes "peers6") d)
  peers_in d (some (list xs)) = parse_dict_peers xs >>= add_peers_6 (str_at (codes "peers6") d)
  peers_in d (some (int n)) = err
  peers_in d (some (dict es)) = err

  abbrev pub response_of : Entries → Outcome Response
  response_of d = do
    peers ← peers_in d (lookup (codes "peers") d)
    ok (record {
      interval = or_zero (int_at (codes "interval") d);
      peers = peers;
      complete = or_zero (int_at (codes "complete") d);
      incomplete = or_zero (int_at (codes "incomplete") d);
      external_ip = external_ip_of (str_at (codes "external ip") d);
    })

  unfoldable pub parse_response : Bytes → Outcome Response
  parse_response bytes = do
    val ← from_bencode (decode bytes)
    d ← or_err (as_dict val)
    if is_some (str_at (codes "failure reason") d) then err else response_of d
