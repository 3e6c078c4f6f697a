-- ===== src/Certmgr.antt =====
-- internal/certmgr: the certificate manager's workspace, what it issues and exports, and its client of
-- the relay's admin service.
pub mod Client
pub mod Files
pub mod Export
pub mod Workspace
pub mod Issue
