-- ===== src/Wal.antt =====
-- crates/prism-wal: the write-ahead log.
pub mod Payload
pub mod Fields
pub mod Reader
pub mod FieldLaws
pub mod Record
pub mod Segment
pub mod Scan
pub mod Device
mod Examples
