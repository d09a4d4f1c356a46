-- ===== src/Admin/Laws.antt =====
-- src/admin.rs: what the parsers accept.
pub mod Sayable
pub mod Raw
