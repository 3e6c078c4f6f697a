-- ===== src/Agent.antt =====
-- internal/agent: the agent's side.
pub mod Body
pub mod Requests
pub mod LocalClient
pub mod Response
pub mod Connector
pub mod Probe
