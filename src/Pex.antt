-- ===== src/Pex.antt =====
-- peer-pressure/pex: messages of the peer exchange (message.go) and the tracker of what a peer has
-- been told (tracker.go).
pub mod Message
pub mod Tracker
mod Tests
