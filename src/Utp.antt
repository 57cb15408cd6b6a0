-- ===== src/Utp.antt =====
-- peer-pressure/utp: packets (utp.go) and selective acknowledgements (sack.go).
pub mod Packet
pub mod Sack
mod Tests
