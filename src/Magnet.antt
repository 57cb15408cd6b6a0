-- ===== src/Magnet.antt =====
-- peer-pressure/magnet: the metadata of a magnet link, fetched from a peer (metadata.go).
pub mod Metadata
mod Tests
