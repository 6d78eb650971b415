-- ===== src/Protocol/Errors.antt =====
-- crates/prism-protocol/src/error.rs
use Prim.Native.Nat.{ℕ}
use Prim.Native.String.{String}

pub data ProtocolError : Type 0 where
  truncated bad_utf8 value_too_large : String → ProtocolError
  unknown_message_type unknown_value_type frame_too_large trailing_bytes : ℕ → ProtocolError
  unknown_op_type bad_enum : String → ℕ → ProtocolError
