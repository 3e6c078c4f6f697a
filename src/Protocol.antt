-- ===== src/Protocol.antt =====
-- internal/protocol: the messages and frames that relay and agent exchange.
pub mod Frame
pub mod Codes
pub mod Path
pub mod RequestId
