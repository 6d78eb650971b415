-- ===== src/Protocol/Value.antt =====
-- crates/prism-protocol/src/data.rs: the wire form of scalars and of column descriptions. A string
-- is its bytes, a double the 64 bits of its representation.
pub mod RoundTrip
use Prim.Native.String.{String}
use prism_db.Common.{ℕ, ◌^◌, Bool, true, false, List, [], ◌∷◌, length, if◌then◌else◌, ◌==◌}
use prism_db.Common.Bytes.{to_le, from_le}
use prism_db.Common.Int.{ℤ, i32_bits, i32_of_bits, i64_bits, i64_of_bits}
use prism_db.Common.Parsers.{Parser, then_read, ◌>>=◌, return, fail}
use prism_db.Protocol.Errors.{ProtocolError, unknown_value_type}
use prism_db.Protocol.Codec.{
  Writer, ◌⊳◌, done, put_u8, put_raw, put_bytes_u16, put_bytes_u32, put_count, put_bool, take,
  get_u8, get_u32, get_bool, get_str_u16, get_str_u32,
}

abbrev pub t_null : ℕ
t_null = 0x00

abbrev pub t_bool : ℕ
t_bool = 0x01

abbrev pub t_int32 : ℕ
t_int32 = 0x02

abbrev pub t_int64 : ℕ
t_int64 = 0x03

abbrev pub t_double : ℕ
t_double = 0x04

abbrev pub t_string : ℕ
t_string = 0x05

abbrev pub t_binary : ℕ
t_binary = 0x06

abbrev pub t_timestamp : ℕ
t_timestamp = 0x09

abbrev pub t_objectid : ℕ
t_objectid = 0x0a

pub data Value : Type 0 where
  null : Value
  boolean : Bool → Value
  int32 int64 timestamp : ℤ → Value
  double : (bits : ℕ) → Value
  str object_id : List ℕ → Value
  binary : (subtype : ℕ) (bytes : List ℕ) → Value

unfoldable pub type_tag : Value → ℕ
type_tag null = t_null
type_tag (boolean _) = t_bool
type_tag (int32 _) = t_int32
type_tag (int64 _) = t_int64
type_tag (double _) = t_double
type_tag (str _) = t_string
type_tag (binary _ _) = t_binary
type_tag (timestamp _) = t_timestamp
type_tag (object_id _) = t_objectid

unfoldable pub encode_value : Value → Writer
encode_value null = done
encode_value (boolean b) = put_bool b
encode_value (int32 n) = put_raw (to_le 4 (i32_bits n))
encode_value (int64 n) = put_raw (to_le 8 (i64_bits n))
encode_value (double bits) = put_raw (to_le 8 bits)
encode_value (str s) = put_bytes_u32 "value.str" s
encode_value (binary subtype bytes) =
    put_count "value.binary" (length bytes) ⊳ (put_u8 subtype ⊳ put_raw bytes)
encode_value (timestamp t) = put_raw (to_le 8 (i64_bits t))
encode_value (object_id id) = put_raw id

read_binary : Parser ProtocolError Value
read_binary = do
  len ← get_u32 "value.binary_len"
  subtype ← get_u8 "value.binary_subtype"
  bytes ← take "value.binary" len
  return (binary subtype bytes)

-- A number of `n` bytes, made into a value.
read_number : String → ℕ → (ℕ → Value) → Parser ProtocolError Value
read_number needed n make = do b ← take needed n; return (make (from_le b))

read_string : Parser ProtocolError Value
read_string = do s ← get_str_u32 "value.str"; return (str s)

read_bool : Parser ProtocolError Value
read_bool = do b ← get_bool "value.bool"; return (boolean b)

read_object_id : Parser ProtocolError Value
read_object_id = do id ← take "value.objectid" 12; return (object_id id)

unfoldable pub decode_value : ℕ → Parser ProtocolError Value
unfolding read_binary read_number read_string read_bool read_object_id
decode_value tag =
    if tag == t_null
    then return null
    else if tag == t_bool
    then read_bool
    else if tag == t_int32
    then read_number "value.int32" 4 (λ v. int32 (i32_of_bits v))
    else if tag == t_int64
    then read_number "value.int64" 8 (λ v. int64 (i64_of_bits v))
    else if tag == t_double
    then read_number "value.double" 8 double
    else if tag == t_string
    then read_string
    else if tag == t_binary
    then read_binary
    else if tag == t_timestamp
    then read_number "value.timestamp" 8 (λ v. timestamp (i64_of_bits v))
    else if tag == t_objectid
    then read_object_id
    else fail (unknown_value_type tag)

unfoldable pub encode_tagged : Value → Writer
encode_tagged v = put_u8 (type_tag v) ⊳ encode_value v

unfoldable pub decode_tagged : Parser ProtocolError Value
decode_tagged = do tag ← get_u8 "value.type_tag"; decode_value tag

pub record ColumnDesc : Type 0 where
  pub name : List ℕ
  pub type_tag : ℕ
  pub nullable : Bool

unfoldable pub encode_column : ColumnDesc → Writer
encode_column c = put_bytes_u16 "column.name" c.name ⊳ (put_u8 c.type_tag ⊳ put_bool c.nullable)

unfoldable pub decode_column : Parser ProtocolError ColumnDesc
decode_column = do
  name ← get_str_u16 "column.name"
  tag ← get_u8 "column.type_tag"
  nullable ← get_bool "column.nullable"
  return record { name = name; type_tag = tag; nullable = nullable }
