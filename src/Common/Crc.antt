-- ===== src/Common/Crc.antt =====
-- The `crc32fast` crate, which the log and the pages take their checksums from: a function of the
-- bytes with values of type `u32`.
use prism_db.Common.Bytes.{IsU32}
use Prim.Native.Nat.{ℕ}
use mathlib.Core.List.{List}

pub record Crc32 : Type 0 where
  pub hash : List ℕ → ℕ
  pub hash-IsU32 : (bytes : List ℕ) → IsU32 (hash bytes)
