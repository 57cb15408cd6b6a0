-- ===== src/Bencode.antt =====
-- peer-pressure/bencode/bencode.go: bencoded values, their encoding and decoding.
pub mod Decimal
pub mod Value
pub mod Outcome
pub mod Decode
pub mod Texts
pub mod Access
pub mod RoundTrip
pub mod Sound
pub mod Order
pub mod Edges
mod Tests
