-- ===== src/Store.antt =====
-- The tables of pkg/store/mysql, as far as the components below read and write them. A query that
-- the database fails is an error; which do is left open.
mod Tables
pub mod Workers
pub mod Heartbeats
pub mod Endpoints
pub mod Catalog
pub mod JsonColumns
pub use Tables.*
