-- ===== src/Core.antt =====
-- crates/prism-core: transactions over the record store.
pub mod Record
pub mod CommitLog
pub mod Visibility
pub mod Lock
pub mod Errors
pub mod LogDevice
pub mod Txn
mod Examples
