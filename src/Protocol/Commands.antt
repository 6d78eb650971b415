-- ===== src/Protocol/Commands.antt =====
-- crates/prism-protocol/src/data.rs: the bodies of document and key-value commands.
pub mod RoundTrip
use Prim.Native.String.{String}
use prism_db.Common.{ℕ, ◌^◌, List, [], ◌∷◌, length, if◌then◌else◌, ◌==◌}
use prism_db.Common.Parsers.{Parser, then_read, ◌>>=◌, return, fail, repeat}
use prism_db.Protocol.Errors.{ProtocolError, unknown_op_type}
use prism_db.Protocol.Codec.{
  Writer, ◌⊳◌, done, put_each, put_u32, put_bytes_u16, put_bytes_u32, put_count, get_u32,
  get_bytes_u16, get_bytes_u32,
}

-- `get_blob_u16` and `get_blob_u32` copy what the reader lends.
unfoldable pub get_blob_u16 : String → Parser ProtocolError (List ℕ)
get_blob_u16 needed = get_bytes_u16 needed

unfoldable pub get_blob_u32 : String → Parser ProtocolError (List ℕ)
get_blob_u32 needed = get_bytes_u32 needed

pub data DocCommand : Type 0 where
  insert_one : (document : List ℕ) → DocCommand
  insert_many : (documents : List (List ℕ)) → DocCommand
  find find_one delete_one delete_many count : (query options : List ℕ) → DocCommand
  update_one update_many : (query update options : List ℕ) → DocCommand

unfoldable pub doc_op_type : DocCommand → ℕ
doc_op_type (insert_one _) = 1
doc_op_type (insert_many _) = 2
doc_op_type (find _ _) = 3
doc_op_type (find_one _ _) = 4
doc_op_type (update_one _ _ _) = 5
doc_op_type (update_many _ _ _) = 6
doc_op_type (delete_one _ _) = 7
doc_op_type (delete_many _ _) = 8
doc_op_type (count _ _) = 9

unfoldable pub put_query : List ℕ → List ℕ → Writer
put_query query options = put_bytes_u32 "doc.query" query ⊳ put_bytes_u32 "doc.options" options

unfoldable pub put_update : List ℕ → List ℕ → List ℕ → Writer
put_update query update options =
    put_bytes_u32 "doc.query" query
    ⊳ (put_bytes_u32 "doc.update" update ⊳ put_bytes_u32 "doc.options" options)

unfoldable pub encode_doc_body : DocCommand → Writer
encode_doc_body (insert_one document) = put_bytes_u32 "doc.document" document
encode_doc_body (insert_many documents) =
    put_count "doc.count" (length documents) ⊳ put_each (put_bytes_u32 "doc.document") documents
encode_doc_body (find query options) = put_query query options
encode_doc_body (find_one query options) = put_query query options
encode_doc_body (update_one query update options) = put_update query update options
encode_doc_body (update_many query update options) = put_update query update options
encode_doc_body (delete_one query options) = put_query query options
encode_doc_body (delete_many query options) = put_query query options
encode_doc_body (count query options) = put_query query options

unfoldable pub read_one : Parser ProtocolError DocCommand
read_one = do document ← get_blob_u32 "doc.document"; return (insert_one document)

unfoldable pub read_many : Parser ProtocolError DocCommand
read_many = do
  n ← get_u32 "doc.count"
  documents ← repeat n (get_blob_u32 "doc.document")
  return (insert_many documents)

unfoldable pub read_query : (List ℕ → List ℕ → DocCommand) → Parser ProtocolError DocCommand
read_query make = do
  query ← get_blob_u32 "doc.query"
  options ← get_blob_u32 "doc.options"
  return (make query options)

unfoldable pub read_doc_update :
    (List ℕ → List ℕ → List ℕ → DocCommand) → Parser ProtocolError DocCommand
read_doc_update make = do
  query ← get_blob_u32 "doc.query"
  update ← get_blob_u32 "doc.update"
  options ← get_blob_u32 "doc.options"
  return (make query update options)

unfoldable pub decode_doc_body : ℕ → Parser ProtocolError DocCommand
decode_doc_body op_type =
    if op_type == 1
    then read_one
    else if op_type == 2
    then read_many
    else if op_type == 3
    then read_query find
    else if op_type == 4
    then read_query find_one
    else if op_type == 5
    then read_doc_update update_one
    else if op_type == 6
    then read_doc_update update_many
    else if op_type == 7
    then read_query delete_one
    else if op_type == 8
    then read_query delete_many
    else if op_type == 9
    then read_query count
    else fail (unknown_op_type "document" op_type)

pub data KvCommand : Type 0 where
  get delete : (key : List ℕ) → KvCommand
  put : (key value : List ℕ) → KvCommand
  range : (start end : List ℕ) (max_results : ℕ) → KvCommand
  scan : (prefix : List ℕ) (max_results : ℕ) → KvCommand

unfoldable pub kv_op_type : KvCommand → ℕ
kv_op_type (get _) = 1
kv_op_type (put _ _) = 2
kv_op_type (delete _) = 3
kv_op_type (range _ _ _) = 4
kv_op_type (scan _ _) = 5

unfoldable pub encode_kv_body : KvCommand → Writer
encode_kv_body (get key) = put_bytes_u16 "kv.key" key
encode_kv_body (delete key) = put_bytes_u16 "kv.key" key
encode_kv_body (put key value) = put_bytes_u16 "kv.key" key ⊳ put_bytes_u32 "kv.value" value
encode_kv_body (range start end max_results) =
    put_bytes_u16 "kv.start" start ⊳ (put_bytes_u16 "kv.end" end ⊳ put_u32 max_results)
encode_kv_body (scan prefix max_results) = put_bytes_u16 "kv.prefix" prefix ⊳ put_u32 max_results

unfoldable pub read_key : (List ℕ → KvCommand) → Parser ProtocolError KvCommand
read_key make = do key ← get_blob_u16 "kv.key"; return (make key)

unfoldable pub read_put : Parser ProtocolError KvCommand
read_put = do key ← get_blob_u16 "kv.key"; value ← get_blob_u32 "kv.value"; return (put key value)

unfoldable pub read_range : Parser ProtocolError KvCommand
read_range = do
  start ← get_blob_u16 "kv.start"
  end ← get_blob_u16 "kv.end"
  max_results ← get_u32 "kv.max_results"
  return (range start end max_results)

unfoldable pub read_scan : Parser ProtocolError KvCommand
read_scan = do
  prefix ← get_blob_u16 "kv.prefix"
  max_results ← get_u32 "kv.max_results"
  return (scan prefix max_results)

unfoldable pub decode_kv_body : ℕ → Parser ProtocolError KvCommand
decode_kv_body op_type =
    if op_type == 1
    then read_key get
    else if op_type == 2
    then read_put
    else if op_type == 3
    then read_key delete
    else if op_type == 4
    then read_range
    else if op_type == 5
    then read_scan
    else fail (unknown_op_type "kv" op_type)
