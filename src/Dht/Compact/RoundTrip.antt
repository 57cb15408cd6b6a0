-- ===== src/Dht/Compact/RoundTrip.antt =====
-- Compact nodes read back from their encoding.
use project_based_learning.Base.{
  ℕ, zero, suc, ◌+◌, ◌%◌, ◌^◌, ◌≤◌, ◌<◌, ◌≡◌, refl, ap, sym, ◌∙◌, false, some, List, [], ◌∷◌, ◌++◌,
  append_assoc, arith, ltb, lengths, length, length-append_bytes, take, drop, drop-add, Bytes, All,
}
use project_based_learning.Base.Wire.{put_u16, IsU16, take_exact, drop_exact}
use project_based_learning.Net.{v4_prefix, to_4, to_16}
use project_based_learning.Dht.Table.{Node}
use project_based_learning.Dht.Compact.{
  each_chunk, u16_of, put_node, encode_compact_nodes, node_of, decode_compact_nodes, put_node_6,
  encode_compact_nodes_6, node_6_of, decode_compact_nodes_6,
}

chunk_step {ℓ} :
    {A : Type ℓ} (size : ℕ) (f : Bytes → A) (fuel : ℕ) (c rest : Bytes)
    → length c ≡ size
    → each_chunk size f (suc fuel) (c ++ rest) ≡ f c ∷ each_chunk size f fuel rest
unfolding each_chunk
chunk_step size f fuel c rest e =
    let n : ltb (length (c ++ rest)) size ≡ false = ground (arith, length-append_bytes c rest) in
    rw (n, take_exact size c rest e, drop_exact size c rest e)

chunks_end {ℓ} :
    {A : Type ℓ} (size : ℕ) (f : Bytes → A) (fuel : ℕ) (rest : Bytes)
    → length rest < size
    → each_chunk size f fuel rest ≡ []
unfolding each_chunk
chunks_end size f zero rest h = refl
chunks_end size f (suc fuel) rest h = ground (arith)

-- An address of the form that decoding gives, and a port of 16 bits.
abbrev pub IsNode4 : Node → Type 0
IsNode4 n =
    (length n.id ≡ 20)
    × ((a : Bytes) × (length a ≡ 4) × (n.addr.ip ≡ v4_prefix ++ a))
    × IsU16 n.addr.port

abbrev pub IsNode6 : Node → Type 0
IsNode6 n = (length n.id ≡ 20) × (length n.addr.ip ≡ 16) × IsU16 n.addr.port

-- The three parts of a compact node, with an address of `size` bytes.
module _ (size : ℕ) (id a : Bytes) (port : ℕ) (id_length : length id ≡ 20)
    (a_length : length a ≡ size) (port_fits : IsU16 port) where
  abbrev wire : Bytes
  wire = id ++ (a ++ put_u16 (port % 2 ^ 16))

  parts :
      (take 20 wire ≡ id) × (take size (drop 20 wire) ≡ a) × (u16_of (drop (20 + size) wire) ≡ port)
  parts =
      let tail = put_u16 (port % 2 ^ 16) in
      (
        take_exact 20 id (a ++ tail) id_length,
        rw (drop_exact 20 id (a ++ tail) id_length) (take_exact size a tail a_length),
        rw
            (
              drop-add 20 size wire,
              drop_exact 20 id (a ++ tail) id_length,
              drop_exact size a tail a_length,
            )
            (omega (arith, port_fits)),
      )

  wire_size : length wire ≡ 20 + size + 2
  wire_size = omega (lengths, id_length, a_length)

to_4-v4 : (a : Bytes) → length a ≡ 4 → to_4 (v4_prefix ++ a) ≡ some a
unfolding to_4
to_4-v4 a h = ground (arith, h)

to_16-id : (ip : Bytes) → length ip ≡ 16 → to_16 ip ≡ some ip
unfolding to_16
to_16-id ip h = ground (arith, h)

node_of-put : (n : Node) → IsNode4 n → (length (put_node n) ≡ 26) × (node_of (put_node n) ≡ n)
node_of-put n (id_length, (a, a_length, ip), port_fits) =
    let (e, f, g) = parts 4 n.id a n.addr.port id_length a_length port_fits in
    let size = wire_size 4 n.id a n.addr.port id_length a_length port_fits in
    let four : to_4 n.addr.ip ≡ some a = rw ip (to_4-v4 a a_length) in
    (
      rw four (omega (arith, size)),
      rw four λ i. record {
        id = e i;
        addr = record { ip = (ap (λ x. v4_prefix ++ x) f ∙ sym ip) i; port = g i };
      },
    )

node_6_of-put :
    (n : Node) → IsNode6 n → (length (put_node_6 n) ≡ 38) × (node_6_of (put_node_6 n) ≡ n)
node_6_of-put n (id_length, a_length, port_fits) =
    let (e, f, g) = parts 16 n.id n.addr.ip n.addr.port id_length a_length port_fits in
    let size = wire_size 16 n.id n.addr.ip n.addr.port id_length a_length port_fits in
    let whole = to_16-id n.addr.ip a_length in
    (
      rw whole (omega (arith, size)),
      rw whole λ i. record { id = e i; addr = record { ip = f i; port = g i } },
    )

read_nodes :
    (nodes : List Node) (rest : Bytes) (fuel : ℕ)
    → All IsNode4 nodes
    → length rest < 26
    → length nodes ≤ fuel
    → each_chunk 26 node_of fuel (encode_compact_nodes nodes ++ rest) ≡ nodes
unfolding encode_compact_nodes
read_nodes [] rest fuel v short h = chunks_end 26 node_of fuel rest short
read_nodes (n ∷ nodes) rest zero v short h = absurd (omega arith)
read_nodes (n ∷ nodes) rest (suc fuel) v short h =
    let (size, e) = node_of-put n v.0 in
    rw (
      append_assoc,
      chunk_step 26 node_of fuel (put_node n) (encode_compact_nodes nodes ++ rest) size,
      e,
      read_nodes nodes rest fuel v.1 short (omega arith),
    )

read_nodes_6 :
    (nodes : List Node) (rest : Bytes) (fuel : ℕ)
    → All IsNode6 nodes
    → length rest < 38
    → length nodes ≤ fuel
    → each_chunk 38 node_6_of fuel (encode_compact_nodes_6 nodes ++ rest) ≡ nodes
unfolding encode_compact_nodes_6
read_nodes_6 [] rest fuel v short h = chunks_end 38 node_6_of fuel rest short
read_nodes_6 (n ∷ nodes) rest zero v short h = absurd (omega arith)
read_nodes_6 (n ∷ nodes) rest (suc fuel) v short h =
    let (size, e) = node_6_of-put n v.0 in
    rw (
      append_assoc,
      chunk_step 38 node_6_of fuel (put_node_6 n) (encode_compact_nodes_6 nodes ++ rest) size,
      e,
      read_nodes_6 nodes rest fuel v.1 short (omega arith),
    )

nodes_length :
    (nodes : List Node) (rest : Bytes)
    → All IsNode4 nodes
    → length nodes ≤ length (encode_compact_nodes nodes ++ rest)
unfolding encode_compact_nodes
nodes_length [] rest v = omega arith
nodes_length (n ∷ nodes) rest v =
    let (size, e) = node_of-put n v.0 in omega (lengths, size, nodes_length nodes rest v.1)

nodes_6_length :
    (nodes : List Node) (rest : Bytes)
    → All IsNode6 nodes
    → length nodes ≤ length (encode_compact_nodes_6 nodes ++ rest)
unfolding encode_compact_nodes_6
nodes_6_length [] rest v = omega arith
nodes_6_length (n ∷ nodes) rest v =
    let (size, e) = node_6_of-put n v.0 in omega (lengths, size, nodes_6_length nodes rest v.1)

-- Nodes with addresses of IPv4, or of IPv6, and ports of 16 bits are read back from the compact
-- form of their family, in order; bytes that follow and fill no node are ignored.
pub decode-encode_compact :
    (nodes nodes_6 : List Node) (rest : Bytes)
    → All IsNode4 nodes
    → All IsNode6 nodes_6
    → length rest < 26
    → (decode_compact_nodes (encode_compact_nodes nodes ++ rest) ≡ nodes)
      × (decode_compact_nodes_6 (encode_compact_nodes_6 nodes_6 ++ rest) ≡ nodes_6)
unfolding decode_compact_nodes decode_compact_nodes_6
decode-encode_compact nodes nodes_6 rest v v' short = (
  read_nodes nodes rest _ v short (nodes_length nodes rest v),
  read_nodes_6 nodes_6 rest _ v' (omega arith) (nodes_6_length nodes_6 rest v'),
)
