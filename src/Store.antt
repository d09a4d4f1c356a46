-- ===== src/Store.antt =====
-- src/store.rs: the database behind the bridge, by the tables of migrations/ and the queries of Store.
mod Tables
mod Recipients
mod Messages
mod Groups
pub mod Laws
unfoldable pub use Tables.*
unfoldable pub use Recipients.*
unfoldable pub use Messages.*
unfoldable pub use Groups.*
