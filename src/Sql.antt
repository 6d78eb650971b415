-- ===== src/Sql.antt =====
-- crates/prism-sql/src: the parts of the SQL engine that do not reach the store.
pub mod Like
pub mod SetOps
pub mod Value
pub mod Keys
mod Examples
