-- ===== src/Protocol/KvResult.antt =====
-- crates/prism-protocol/src/data.rs: the bodies of key-value results.
pub mod RoundTrip
use prism_db.Common.{
  ℕ, Bool, true, false, List, [], ◌∷◌, Option, none, some, length, if◌then◌else◌, ◌==◌,
}
use prism_db.Common.Parsers.{Parser, then_read, ◌>>=◌, return, fail, repeat}
use prism_db.Protocol.Errors.{ProtocolError, unknown_op_type}
use prism_db.Protocol.Codec.{
  Writer, ◌⊳◌, done, put_each, put_u8, put_bytes_u16, put_bytes_u32, put_count, put_bool, get_u32,
  get_bool,
}
use prism_db.Protocol.Commands.{get_blob_u16, get_blob_u32}

abbrev pub Entry : Type 0
Entry = List ℕ × List ℕ

pub data KvResultBody : Type 0 where
  get : (value : Option (List ℕ)) → KvResultBody
  put delete : KvResultBody
  range scan : (entries : List Entry) (more_frames : Bool) → KvResultBody

unfoldable pub result_op_type : KvResultBody → ℕ
result_op_type (get _) = 1
result_op_type put = 2
result_op_type delete = 3
result_op_type (range _ _) = 4
result_op_type (scan _ _) = 5

unfoldable pub put_entry : Entry → Writer
put_entry (key, value) = put_bytes_u16 "kv.entry_key" key ⊳ put_bytes_u32 "kv.entry_value" value

unfoldable pub encode_entries : List Entry → Writer
encode_entries entries = put_count "kv.entry_count" (length entries) ⊳ put_each put_entry entries

unfoldable pub put_found : Option (List ℕ) → Writer
put_found none = put_u8 0
put_found (some v) = put_u8 1 ⊳ put_bytes_u32 "kv.value" v

unfoldable pub encode_result_body : KvResultBody → Writer
encode_result_body (get value) = put_found value
encode_result_body put = done
encode_result_body delete = done
encode_result_body (range entries more_frames) = encode_entries entries ⊳ put_bool more_frames
encode_result_body (scan entries more_frames) = encode_entries entries ⊳ put_bool more_frames

unfoldable pub read_entry : Parser ProtocolError Entry
read_entry = do
  key ← get_blob_u16 "kv.entry_key"
  value ← get_blob_u32 "kv.entry_value"
  return (key, value)

unfoldable pub decode_entries : Parser ProtocolError (List Entry)
decode_entries = do count ← get_u32 "kv.entry_count"; repeat count read_entry

unfoldable pub read_found : Bool → Parser ProtocolError KvResultBody
read_found true = do v ← get_blob_u32 "kv.value"; return (get (some v))
read_found false = return (get none)

unfoldable pub read_get : Parser ProtocolError KvResultBody
read_get = do found ← get_bool "kv.found"; read_found found

unfoldable pub read_entries : (List Entry → Bool → KvResultBody) → Parser ProtocolError KvResultBody
read_entries make = do
  entries ← decode_entries
  more_frames ← get_bool "kv.more_frames"
  return (make entries more_frames)

unfoldable pub decode_result_body : ℕ → Parser ProtocolError KvResultBody
decode_result_body op_type =
    if op_type == 1
    then read_get
    else if op_type == 2
    then return put
    else if op_type == 3
    then return delete
    else if op_type == 4
    then read_entries range
    else if op_type == 5
    then read_entries scan
    else fail (unknown_op_type "kv-result" op_type)
