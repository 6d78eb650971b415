-- ===== src/Protocol/Update.antt =====
-- crates/prism-protocol/src/data.rs: document updates.
pub mod RoundTrip
use prism_db.Common.{ℕ, List, [], ◌∷◌, length, if◌then◌else◌, ◌==◌}
use prism_db.Common.Int.{ℤ, i64_bits, i64_of_bits}
use prism_db.Common.Results.{Result, ok, err}
use prism_db.Common.Parsers.{Parser, then_read, ◌>>=◌, return, fail, repeat}
use prism_db.Protocol.Errors.{ProtocolError, bad_enum}
use prism_db.Protocol.Codec.{
  Writer, ◌⊳◌, put_each, put_u8, put_u64, put_bytes_u16, put_count, get_u8, get_u32, get_u64,
  get_str_u16, then_end,
}
use prism_db.Protocol.Value.{Value, encode_tagged, decode_tagged}

pub data DocUpdateOp : Type 0 where
  set : (field : List ℕ) (value : Value) → DocUpdateOp
  unset : (field : List ℕ) → DocUpdateOp
  inc : (field : List ℕ) (delta : ℤ) → DocUpdateOp

unfoldable pub read_field : Parser ProtocolError (List ℕ)
read_field = get_str_u16 "query.field"

unfoldable pub put_op : DocUpdateOp → Writer
put_op (set field value) = put_u8 1 ⊳ (put_bytes_u16 "update.field" field ⊳ encode_tagged value)
put_op (unset field) = put_u8 2 ⊳ put_bytes_u16 "update.field" field
put_op (inc field delta) =
    put_u8 3 ⊳ (put_bytes_u16 "update.field" field ⊳ put_u64 (i64_bits delta))

-- `DocUpdate::to_bytes`, on the list of mutations that a `DocUpdate` is.
unfoldable pub put_ops : List DocUpdateOp → Writer
put_ops ops = put_count "update.ops" (length ops) ⊳ put_each put_op ops

unfoldable pub to_bytes : List DocUpdateOp → Result ProtocolError (List ℕ)
to_bytes ops = put_ops ops []

unfoldable pub read_set : Parser ProtocolError DocUpdateOp
read_set = do field ← read_field; value ← decode_tagged; return (set field value)

unfoldable pub read_unset : Parser ProtocolError DocUpdateOp
read_unset = do field ← read_field; return (unset field)

unfoldable pub read_inc : Parser ProtocolError DocUpdateOp
read_inc = do
  field ← read_field
  delta ← get_u64 "update.delta"
  return (inc field (i64_of_bits delta))

unfoldable pub read_tagged_op : ℕ → Parser ProtocolError DocUpdateOp
read_tagged_op tag =
    if tag == 1
    then read_set
    else if tag == 2
    then read_unset
    else if tag == 3
    then read_inc
    else fail (bad_enum "update.tag" tag)

unfoldable pub read_op : Parser ProtocolError DocUpdateOp
read_op = do tag ← get_u8 "update.tag"; read_tagged_op tag

unfoldable pub read_ops : Parser ProtocolError (List DocUpdateOp)
read_ops = do count ← get_u32 "update.op_count"; repeat count read_op

unfoldable pub from_bytes : List ℕ → Result ProtocolError (List DocUpdateOp)
from_bytes bytes = then_end (read_ops bytes)
