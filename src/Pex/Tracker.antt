-- ===== src/Pex/Tracker.antt =====
-- What a connection has been told of its swarm (pex/tracker.go).
pub mod Told
use project_based_learning.Base.{
  ℕ, Bool, true, false, not, ◌&&◌, Option, none, some, List, [], ◌∷◌, ◌++◌, if◌then◌else◌, length,
  take, Bytes,
}
use project_based_learning.Base.Wire.{put_u16}
use project_based_learning.Base.Assoc.{put, delete, has}
use project_based_learning.Net.{to_4, to_16}
use project_based_learning.Pex.Message.{PeerEntry, Message}

abbrev pub max_added : ℕ
max_added = 50

abbrev pub max_dropped : ℕ
max_dropped = 50

abbrev pub or_same : Bytes → Option Bytes → Bytes
or_same ip none = ip
or_same ip (some long) = long

-- The text "ip:port" that `Addr` makes stands for the port and the address in its long form: two
-- addresses are printed alike just if their long forms are equal.
unfoldable pub addr : Bytes → ℕ → Bytes
addr ip port = put_u16 port ++ or_same ip (to_16 ip)

abbrev pub Peers : Type 0
Peers = List (Bytes × PeerEntry)

pub record DiffTracker : Type 0 where
  pub current : Peers
  pub last_sent : Peers

abbrev pub new_diff_tracker : DiffTracker
new_diff_tracker = record { current = []; last_sent = [] }

unfoldable pub add_peer : PeerEntry → DiffTracker → DiffTracker
add_peer e t = record t { current = put (addr e.ip e.port) e t.current }

unfoldable pub remove_peer : Bytes → ℕ → DiffTracker → DiffTracker
remove_peer ip port t = record t { current = delete (addr ip port) t.current }

unfoldable pub count : DiffTracker → ℕ
count t = length t.current

abbrev pub is_some {ℓ} : {A : Type ℓ} → Option A → Bool
is_some none = false
is_some (some a) = true

-- The entries of one map that another lacks, of IPv4 or of the others, in the order in which Go
-- walks the first; `known` are the entries of the second.
unfoldable pub missing : Bool → Peers → Peers → List PeerEntry
missing v4 known [] = []
missing true known ((k, e) ∷ m) =
    if not (has k known) && is_some (to_4 e.ip)
    then e ∷ missing true known m
    else missing true known m
missing false known ((k, e) ∷ m) =
    if not (has k known) && not (is_some (to_4 e.ip))
    then e ∷ missing false known m
    else missing false known m

unfoldable pub diff : DiffTracker → Message × DiffTracker
diff t = (
  record {
    added = take max_added (missing true t.last_sent t.current);
    dropped = take max_dropped (missing true t.current t.last_sent);
    added_6 = take max_added (missing false t.last_sent t.current);
    dropped_6 = take max_dropped (missing false t.current t.last_sent);
  },
  record t { last_sent = t.current },
)
