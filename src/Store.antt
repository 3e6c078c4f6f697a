-- ===== src/Store.antt =====
-- internal/store: what the tables hold, and the statements on them. SQLite runs each statement as
-- written; a failure of the database itself is not modelled.
pub mod Certs
pub mod Logs
pub mod Users
