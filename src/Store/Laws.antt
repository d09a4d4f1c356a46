-- ===== src/Store/Laws.antt =====
-- src/store.rs: what the queries and statements guarantee together.
pub mod Calls
pub mod Rows
pub mod Recipients
pub mod Listed
