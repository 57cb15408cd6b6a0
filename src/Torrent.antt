-- ===== src/Torrent.antt =====
-- peer-pressure/torrent: Merkle trees of BEP 52 (merkle.go), metainfo files (torrent.go).
pub mod Merkle
pub mod Metainfo
mod Tests
