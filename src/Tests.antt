-- ===== src/Tests.antt =====
-- Runs of the definitions at concrete inputs, and the theorems applied there.
mod Tasks
mod Leases
mod Peer
mod Gzip
mod Lines
mod Channel
mod Handshake
mod Desktop
mod Executor
mod Fences
mod PathPolicy
mod Validation
