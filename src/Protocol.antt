-- ===== src/Protocol.antt =====
-- crates/prism-protocol/src: the wire format.
pub mod Errors
pub mod Utf8
pub mod Codec
pub mod Encodes
pub mod Fields
pub mod Value
pub mod Rows
pub mod Commands
pub mod KvResult
pub mod Update
pub mod Query
pub mod MessageType
pub mod Message
pub mod Frame
mod Examples
