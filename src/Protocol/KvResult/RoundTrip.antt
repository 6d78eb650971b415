-- ===== src/Protocol/KvResult/RoundTrip.antt =====
-- crates/prism-protocol/src/data.rs: the bodies of key-value results, encoded and
-- decoded.
use prism_db.Common.{ℕ, ◌≡◌, Bool, true, false, List, [], Option, none, some, length}
use prism_db.Common.Results.{ok}
use prism_db.Protocol.Codec.{◌⊳◌, put_bool, then_end}
use prism_db.Protocol.Encodes.{
  Encodes, done-Encodes, then-Encodes, map-Encodes, then_end-Encodes, put_all-Encodes,
}
use prism_db.Protocol.Fields.{bool-Encodes, count-Encodes, bytes_u16-Encodes, bytes_u32-Encodes}
use prism_db.Protocol.Commands.{get_blob_u16, get_blob_u32}
use prism_db.Protocol.KvResult.{
  Entry, KvResultBody, get, put, delete, range, scan, result_op_type, put_entry, encode_entries,
  put_found, encode_result_body, read_entry, decode_entries, read_found, read_get, read_entries,
  decode_result_body,
}

entry-Encodes : (e : Entry) → Encodes (put_entry e) read_entry e
unfolding put_entry read_entry get_blob_u16 get_blob_u32
entry-Encodes (k, v) =
    then-Encodes _ (bytes_u16-Encodes _ _ k) (map-Encodes (λ v. (k, v)) (bytes_u32-Encodes _ _ v))

entries-Encodes : (es : List Entry) → Encodes (encode_entries es) decode_entries es
unfolding encode_entries decode_entries
entries-Encodes es =
    then-Encodes _ (count-Encodes _ _ (length es))
      (put_all-Encodes put_entry read_entry es entry-Encodes)

page-Encodes :
    (make : List Entry → Bool → KvResultBody) (es : List Entry) (more : Bool)
    → Encodes (encode_entries es ⊳ put_bool more) (read_entries make) (make es more)
unfolding read_entries
page-Encodes make es more =
    then-Encodes _ (entries-Encodes es) (map-Encodes (make es) (bool-Encodes _ more))

found-Encodes : (value : Option (List ℕ)) → Encodes (put_found value) read_get (get value)
unfolding put_found read_get read_found get_blob_u32 put_bool
found-Encodes none = record {
  appended = λ out out' e.
      let (bs, app, reads) = (bool-Encodes "kv.found" false).appended out out' e in
      (bs, app, λ rest. rw (reads rest));
}
found-Encodes (some v) =
    then-Encodes read_found (bool-Encodes _ true)
      (map-Encodes (λ v. get (some v)) (bytes_u32-Encodes _ _ v))

pub result_body-Encodes :
    (r : KvResultBody) → Encodes (encode_result_body r) (decode_result_body (result_op_type r)) r
unfolding encode_result_body decode_result_body result_op_type
result_body-Encodes (get value) = found-Encodes value
result_body-Encodes put = done-Encodes put
result_body-Encodes delete = done-Encodes delete
result_body-Encodes (range es more) = page-Encodes range es more
result_body-Encodes (scan es more) = page-Encodes scan es more

-- A key-value result whose encoding succeeds is read back from the whole of its bytes.
pub decode_result_body-encode_result_body :
    (r : KvResultBody) (bytes : List ℕ)
    → encode_result_body r [] ≡ ok bytes
    → then_end (decode_result_body (result_op_type r) bytes) ≡ ok r
decode_result_body-encode_result_body r bytes =
    then_end-Encodes (encode_result_body r) _ r bytes (result_body-Encodes r)
