-- ===== src/Dht/Compact.antt =====
-- Compact nodes and samples (dht/node.go, lines 520 to 551, 588 to 620 and 690 to 709).
pub mod RoundTrip
use project_based_learning.Base.{
  ℕ, zero, suc, ◌+◌, ◌*◌, ◌%◌, ◌^◌, Option, none, some, List, [], ◌∷◌, ◌++◌, ltb, if◌then◌else◌,
  length, take, drop, get_or, replicate, Bytes,
}
use project_based_learning.Base.Wire.{put_u16}
use project_based_learning.Net.{v4_prefix, to_4, to_16}
use project_based_learning.Dht.Table.{UdpAddr, Node}

-- The loops `for len(data) >= size`, which cut `size` bytes off in each round: the length of the
-- data is enough fuel.
unfoldable pub each_chunk {ℓ} : {A : Type ℓ} → ℕ → (Bytes → A) → ℕ → Bytes → List A
each_chunk size f zero d = []
each_chunk size f (suc fuel) d =
    let more = f (take size d) ∷ each_chunk size f fuel (drop size d) in
    if ltb (length d) size then [] else more

-- `Uint16` of two bytes that are there.
abbrev pub u16_of : Bytes → ℕ
u16_of (a ∷ b ∷ d) = a * 2 ^ 8 + b
u16_of d = 0

abbrev pub or_zeros : ℕ → Option Bytes → Bytes
or_zeros n none = replicate n 0
or_zeros n (some b) = b

-- An identifier has 20 bytes.
abbrev pub put_node : Node → Bytes
put_node n = n.id ++ (or_zeros 4 (to_4 n.addr.ip) ++ put_u16 (n.addr.port % 2 ^ 16))

unfoldable pub encode_compact_nodes : List Node → Bytes
encode_compact_nodes [] = []
encode_compact_nodes (n ∷ nodes) = put_node n ++ encode_compact_nodes nodes

-- `net.IPv4` makes the form of 16 bytes.
abbrev pub node_of : Bytes → Node
node_of d = record {
  id = take 20 d;
  addr = record { ip = v4_prefix ++ take 4 (drop 20 d); port = u16_of (drop 24 d) };
}

unfoldable pub decode_compact_nodes : Bytes → List Node
decode_compact_nodes d = each_chunk 26 node_of (length d) d

abbrev pub put_node_6 : Node → Bytes
put_node_6 n = n.id ++ (or_zeros 16 (to_16 n.addr.ip) ++ put_u16 (n.addr.port % 2 ^ 16))

unfoldable pub encode_compact_nodes_6 : List Node → Bytes
encode_compact_nodes_6 [] = []
encode_compact_nodes_6 (n ∷ nodes) = put_node_6 n ++ encode_compact_nodes_6 nodes

abbrev pub node_6_of : Bytes → Node
node_6_of d = record {
  id = take 20 d;
  addr = record { ip = take 16 (drop 20 d); port = u16_of (drop 36 d) };
}

unfoldable pub decode_compact_nodes_6 : Bytes → List Node
decode_compact_nodes_6 d = each_chunk 38 node_6_of (length d) d

unfoldable pub decode_samples : Bytes → List Bytes
decode_samples d = each_chunk 20 (λ s. s) (length d) d

unfoldable pub encode_samples : List Bytes → Bytes
encode_samples [] = []
encode_samples (h ∷ hashes) = h ++ encode_samples hashes
