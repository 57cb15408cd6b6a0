-- ===== src/Seed.antt =====
-- peer-pressure/seed: who may download from us (choke.go, with the connections of upload.go).
pub mod Choker
mod Tests
