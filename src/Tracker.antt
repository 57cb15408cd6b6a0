-- ===== src/Tracker.antt =====
-- peer-pressure/tracker: the choice among the trackers of a torrent (tiered.go), their answers
-- (tracker.go), and the exchange with one over UDP (udp.go).
pub mod Tiered
pub mod Response
pub mod Udp
pub mod Query
pub mod Scrape
mod Tests
