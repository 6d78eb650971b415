-- ===== src/Storage.antt =====
-- crates/prism-storage/src: pages.
pub mod Bytes
pub mod Page
mod Examples
