-- ===== src/Peer.antt =====
-- crates/machine-fabric-peer: authenticated duplex channels between nodes.
pub mod Grant
pub mod Frame
pub mod Compression
pub mod Gzip
pub mod Wire
pub mod Lines
pub mod Channel
pub mod Limits
pub mod Inbound
pub mod Runs
pub mod Config
pub mod Handshake
pub mod Meeting
pub mod Sends
pub mod Greetings
pub mod Meets
