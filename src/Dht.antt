-- ===== src/Dht.antt =====
-- peer-pressure/dht: the routing table (table.go), KRPC messages (krpc.go), compact nodes and the
-- order and refresh of lookups (node.go), the store of BEP 44 (store.go).
pub mod Table
pub mod Krpc
pub mod Compact
pub mod Security
pub mod Lookup
pub mod Refresh
pub mod Query
pub mod Peers
pub mod Store
mod Tests
