-- ===== src/Lib.antt =====
-- Verification of peer-pressure, a BitTorrent client in Go (the folder peer-pressure).
--
-- The client exchanges bencoded values with trackers, DHT nodes and metainfo files, speaks the
-- peer wire protocol over TCP or uTP, picks the pieces to ask a peer for, checks what it gets
-- against hashes, and seeds. The parts below are the logic of that, without its I/O. A peer
-- connection reads frames (Peer/Message); the bitfields it reads are what the picker counts and
-- chooses by (Download/Picker, Download/Bitfield). Bencode carries metainfo, KRPC messages, stored
-- items and the peer exchange, which read it through Bencode/Access. A DHT lookup fills the
-- routing table from compact nodes; the choker decides by speed who is sent a message.
--
-- Where the code is modelled:
--   Bencode/Value, Encode, Decode   peer-pressure/bencode/bencode.go: Value, Encode, Decode,
--                                   DecodeFirst, DecodeRaw, DecodeDictRaw
--   Peer/Message, Peer/Handshake    peer-pressure/peer/message.go: frames, constructors, parsers,
--                                   WriteHandshake and ReadHandshake
--   Peer/HashTree                   peer-pressure/peer/v2messages.go
--   Peer/Extension                  peer-pressure/peer/extension.go and partialseed.go
--   Peer/Priority                   peer-pressure/peer/priority.go
--   Peer/Holepunch                  peer-pressure/peer/holepunch.go
--   Download/Picker, Bitfield       peer-pressure/download/picker.go: the state Picker and its
--                                   methods, hasPiece, MakeBitfield
--   Download/Piece                  peer-pressure/download/piece.go
--   Download/Pool                   peer-pressure/download/pool.go: the state of the pool
--   Magnet/Metadata                 peer-pressure/magnet/metadata.go
--   Utp/Packet, Utp/Sack            peer-pressure/utp/utp.go and sack.go
--   Torrent/Merkle, Metainfo        peer-pressure/torrent/merkle.go and torrent.go
--   Tracker/Tiered                  peer-pressure/tracker/tiered.go
--   Tracker/Response, Query         peer-pressure/tracker/tracker.go: answers, encoded values
--   Tracker/Udp, Scrape             peer-pressure/tracker/udp.go and scrape.go: the exchanges
--   Dht/Table, Krpc, Store          peer-pressure/dht/table.go, krpc.go and store.go
--   Dht/Compact, Lookup, Refresh    peer-pressure/dht/node.go: compact nodes, FindNode, the
--                                   identifiers that refreshBuckets looks up
--   Dht/Query, Peers                peer-pressure/dht/node.go: queries and their replies,
--                                   AnnouncePeer; GetPeers
--   Dht/Security                    peer-pressure/dht/security.go
--   Pex/Message, Tracker            peer-pressure/pex/message.go and tracker.go
--   Seed/Choker                     peer-pressure/seed/choke.go
--   Net                             To4 and To16 of the Go type net.IP
-- Base has what they share: Go integers and their limits, big-endian numbers, slices, bits of a
-- byte, and the result type of fallible code. The modules below each of these hold the proofs,
-- and those named Tests concrete inputs.
--
-- Conventions. A byte string is a list of numbers, and IsByte says where a theorem needs that they
-- are below 256. A method that changes its receiver takes the state and returns the next one. An
-- error is `err` or a value of the component's own Error; an index out of range is `panic`. A
-- reader is the list of bytes that it delivers before its end. Random choice, SHA-1, SHA-256,
-- CRC-32C, the check of signatures, what a tracker sends back and the answers of DHT nodes (of
-- their queries, what Transport.Send gives) are parameters; the clock is an argument, and so is
-- the longest slice that make gives (memory), past which it panics. A map is the list of its
-- entries (Base/Assoc). A lock makes a method atomic, so that concurrent calls are a sequence of
-- steps (the modules Reach).
--
-- Loops and fuel. Decode recurses on fuel of twice the length of the input and two: a value takes
-- a byte at least, with one round for it and one for the list or dict around it. The extensions
-- of a uTP packet have fuel of the length and one, since each takes two bytes. The loops of the
-- Merkle tree run on the length of the layer, which each round halves, and those over compact
-- nodes and over the path of a tracker on the length of the data. A DHT lookup, of nodes or of
-- peers, takes its number of rounds as fuel, since it ends only where the network names finitely
-- many nodes. All other loops are structural.
--
-- Not modelled: sockets, goroutines, timers, files and the command line, which are I/O; the
-- creation of torrents, HTTP requests, magnet links, the transport of KRPC, the bootstrap of the
-- DHT, the allowed-fast set and the uTP congestion window; texts for logs; writers that fail.
pub mod Base
pub mod Bencode
pub mod Peer
pub mod Download
pub mod Utp
pub mod Torrent
pub mod Net
pub mod Tracker
pub mod Dht
pub mod Pex
pub mod Seed
pub mod Magnet
