-- ===== src/Download.antt =====
-- peer-pressure/download: the choice of pieces (picker.go) and their download (piece.go).
pub mod Bitfield
pub mod Picker
pub mod Piece
pub mod Pool
mod Tests
