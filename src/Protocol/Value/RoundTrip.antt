-- ===== src/Protocol/Value/RoundTrip.antt =====
-- crates/prism-protocol/src/data.rs: scalars and columns, encoded and decoded.
use Prim.Native.String.{String}
use prism_db.Common.{ℕ, ◌^◌, ◌≡◌, ◌<◌, true, List, [], length, refl, ap, ◌∙◌, subst}
use prism_db.Common.Bytes.{IsU64, to_le, from_le, length-to_le, from_le-to_le}
use prism_db.Common.Int.{
  IsI32, IsI64, i32_bits, i32_of_bits, i64_bits, i64_of_bits, i32_bits-lt, i64_bits-lt,
  i32_of_bits-i32_bits, i64_of_bits-i64_bits,
}
use prism_db.Protocol.Utf8.{is_utf8}
use prism_db.Protocol.Codec.{put_raw, then_end}
use prism_db.Common.Results.{ok}
use prism_db.Protocol.Encodes.{Encodes, done-Encodes, then-Encodes, map-Encodes, then_end-Encodes}
use prism_db.Protocol.Fields.{
  u8-Encodes, raw-Encodes, bool-Encodes, count-Encodes, str_u16-Encodes, str_u32-Encodes,
}
use prism_db.Protocol.Value.{
  Value, null, boolean, int32, int64, timestamp, double, str, object_id, binary, type_tag,
  encode_value, decode_value, read_binary, read_number, read_string, read_bool, read_object_id,
  encode_tagged, decode_tagged, ColumnDesc, encode_column, decode_column,
}

-- What the Rust types promise of a value: the widths of its numbers, UTF-8, and twelve bytes.
abbrev pub IsValue : Value → Type 0
IsValue null = Unit
IsValue (boolean _) = Unit
IsValue (int32 n) = IsI32 n
IsValue (int64 n) = IsI64 n
IsValue (double bits) = IsU64 bits
IsValue (str s) = is_utf8 s ≡ true
IsValue (binary _ _) = Unit
IsValue (timestamp t) = IsI64 t
IsValue (object_id id) = length id ≡ 12

number-Encodes :
    (needed : String) (n v : ℕ) (make : ℕ → Value) (x : Value)
    → v < 256 ^ n
    → make v ≡ x
    → Encodes (put_raw (to_le n v)) (read_number needed n make) x
unfolding read_number
number-Encodes needed n v make x fits e =
    subst (λ y. Encodes (put_raw (to_le n v)) (read_number needed n make) y)
      (ap make (from_le-to_le n v fits) ∙ e)
      (map-Encodes (λ b. make (from_le b)) (raw-Encodes needed n (to_le n v) (length-to_le n v)))

pub value-Encodes : (v : Value) → IsValue v → Encodes (encode_value v) (decode_value (type_tag v)) v
unfolding encode_value decode_value type_tag read_binary read_string read_bool read_object_id
value-Encodes null h = done-Encodes null
value-Encodes (boolean b) h = map-Encodes boolean (bool-Encodes _ b)
value-Encodes (int32 n) h =
    number-Encodes _ 4 (i32_bits n) (λ v. int32 (i32_of_bits v)) _ (i32_bits-lt n)
      (ap int32 (i32_of_bits-i32_bits n h))
value-Encodes (int64 n) h =
    number-Encodes _ 8 (i64_bits n) (λ v. int64 (i64_of_bits v)) _ (i64_bits-lt n)
      (ap int64 (i64_of_bits-i64_bits n h))
value-Encodes (double bits) h = number-Encodes _ 8 bits double _ h refl
value-Encodes (str s) h = map-Encodes str (str_u32-Encodes _ s h)
value-Encodes (binary subtype bytes) h = then-Encodes _ (count-Encodes _ _ (length bytes)) (
    then-Encodes _ (u8-Encodes _ subtype)
      (map-Encodes (binary subtype) (raw-Encodes _ (length bytes) bytes refl)))
value-Encodes (timestamp t) h =
    number-Encodes _ 8 (i64_bits t) (λ v. timestamp (i64_of_bits v)) _ (i64_bits-lt t)
      (ap timestamp (i64_of_bits-i64_bits t h))
value-Encodes (object_id id) h = map-Encodes object_id (raw-Encodes _ 12 id h)

pub tagged-Encodes : (v : Value) → IsValue v → Encodes (encode_tagged v) decode_tagged v
unfolding encode_tagged decode_tagged
tagged-Encodes v h = then-Encodes _ (u8-Encodes _ (type_tag v)) (value-Encodes v h)

pub column-Encodes :
    (c : ColumnDesc) → is_utf8 c.name ≡ true → Encodes (encode_column c) decode_column c
unfolding encode_column decode_column
column-Encodes c h = then-Encodes _ (str_u16-Encodes _ c.name h) (
    then-Encodes _ (u8-Encodes _ c.type_tag) (
      map-Encodes (λ b. record { name = c.name; type_tag = c.type_tag; nullable = b })
        (bool-Encodes _ c.nullable)))

-- A tagged value in the ranges of its Rust types whose encoding succeeds is read back from the whole
-- of its bytes.
pub decode_tagged-encode_tagged :
    (v : Value) (bytes : List ℕ)
    → IsValue v
    → encode_tagged v [] ≡ ok bytes
    → then_end (decode_tagged bytes) ≡ ok v
decode_tagged-encode_tagged v bytes h =
    then_end-Encodes (encode_tagged v) decode_tagged v bytes (tagged-Encodes v h)
