-- ===== src/Buffer.antt =====
-- crates/prism-buffer/src: the page cache.
pub mod Devices
pub mod Pool
pub mod Paging
mod Examples
