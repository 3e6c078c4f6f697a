-- ===== src/Relay.antt =====
-- internal/relay: the relay's side.
pub mod Proxy
pub mod Chunks
pub mod Node
pub mod Registry
pub mod Heartbeat
pub mod Scheduler
pub mod Connection
pub mod Requests
pub mod Forward
pub mod Pending
pub mod Handshake
pub mod Directory
pub mod Upstream
pub mod Admission
pub mod Persistence
