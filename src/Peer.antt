-- ===== src/Peer.antt =====
-- peer-pressure/peer: the peer wire protocol (message.go, v2messages.go, holepunch.go, extension.go,
-- partialseed.go, priority.go).
pub mod MsgId
pub mod Message
pub mod Framing
pub mod Payload
pub mod Handshake
pub mod HashTree
pub mod Holepunch
pub mod Extension
pub mod Priority
mod Tests
