-- ===== src/Protocol/Commands/RoundTrip.antt =====
-- crates/prism-protocol/src/data.rs: the bodies of commands, encoded and decoded.
use prism_db.Common.{ℕ, ◌≡◌, List, [], length}
use prism_db.Common.Bytes.{IsU32}
use prism_db.Common.Results.{ok}
use prism_db.Protocol.Codec.{put_bytes_u32, then_end}
use prism_db.Protocol.Encodes.{
  Encodes, then-Encodes, map-Encodes, then_end-Encodes, put_all-Encodes,
}
use prism_db.Protocol.Fields.{u32-Encodes, count-Encodes, bytes_u16-Encodes, bytes_u32-Encodes}
use prism_db.Protocol.Commands.{
  DocCommand, insert_one, insert_many, find, find_one, delete_one, delete_many, count, update_one,
  update_many, doc_op_type, put_query, put_update, encode_doc_body, decode_doc_body, get_blob_u16,
  get_blob_u32, read_one, read_many, read_query, read_doc_update, KvCommand, get, delete, put,
  range, scan, kv_op_type, encode_kv_body, decode_kv_body, read_key, read_put, read_range,
  read_scan,
}

query-Encodes :
    (make : List ℕ → List ℕ → DocCommand) (q o : List ℕ)
    → Encodes (put_query q o) (read_query make) (make q o)
unfolding put_query read_query get_blob_u32
query-Encodes make q o =
    then-Encodes _ (bytes_u32-Encodes _ _ q) (map-Encodes (make q) (bytes_u32-Encodes _ _ o))

update-Encodes :
    (make : List ℕ → List ℕ → List ℕ → DocCommand) (q u o : List ℕ)
    → Encodes (put_update q u o) (read_doc_update make) (make q u o)
unfolding put_update read_doc_update get_blob_u32
update-Encodes make q u o =
    then-Encodes _ (bytes_u32-Encodes _ _ q)
      (then-Encodes _ (bytes_u32-Encodes _ _ u) (map-Encodes (make q u) (bytes_u32-Encodes _ _ o)))

pub doc_body-Encodes :
    (c : DocCommand) → Encodes (encode_doc_body c) (decode_doc_body (doc_op_type c)) c
unfolding encode_doc_body decode_doc_body doc_op_type read_one read_many get_blob_u32
doc_body-Encodes (insert_one d) = map-Encodes insert_one (bytes_u32-Encodes _ _ d)
doc_body-Encodes (insert_many ds) = then-Encodes _ (count-Encodes _ _ (length ds)) (
    map-Encodes insert_many
      (put_all-Encodes (put_bytes_u32 "doc.document") _ ds (λ d. bytes_u32-Encodes _ _ d)))
doc_body-Encodes (find q o) = query-Encodes find q o
doc_body-Encodes (find_one q o) = query-Encodes find_one q o
doc_body-Encodes (delete_one q o) = query-Encodes delete_one q o
doc_body-Encodes (delete_many q o) = query-Encodes delete_many q o
doc_body-Encodes (count q o) = query-Encodes count q o
doc_body-Encodes (update_one q u o) = update-Encodes update_one q u o
doc_body-Encodes (update_many q u o) = update-Encodes update_many q u o

-- The one field of a command that is a number.
abbrev pub IsKv : KvCommand → Type 0
IsKv (get _) = Unit
IsKv (delete _) = Unit
IsKv (put _ _) = Unit
IsKv (range _ _ max_results) = IsU32 max_results
IsKv (scan _ max_results) = IsU32 max_results

pub kv_body-Encodes :
    (c : KvCommand) → IsKv c → Encodes (encode_kv_body c) (decode_kv_body (kv_op_type c)) c
unfolding encode_kv_body decode_kv_body kv_op_type read_key read_put read_range read_scan
    get_blob_u16 get_blob_u32
kv_body-Encodes (get k) h = map-Encodes get (bytes_u16-Encodes _ _ k)
kv_body-Encodes (delete k) h = map-Encodes delete (bytes_u16-Encodes _ _ k)
kv_body-Encodes (put k v) h =
    then-Encodes _ (bytes_u16-Encodes _ _ k) (map-Encodes (put k) (bytes_u32-Encodes _ _ v))
kv_body-Encodes (range s e m) h =
    then-Encodes _ (bytes_u16-Encodes _ _ s)
      (then-Encodes _ (bytes_u16-Encodes _ _ e) (map-Encodes (range s e) (u32-Encodes _ m h)))
kv_body-Encodes (scan p m) h =
    then-Encodes _ (bytes_u16-Encodes _ _ p) (map-Encodes (scan p) (u32-Encodes _ m h))

-- A document command whose encoding succeeds is read back from the whole of its bytes, for each
-- kind of command and all contents.
pub decode_doc_body-encode_doc_body :
    (c : DocCommand) (bytes : List ℕ)
    → encode_doc_body c [] ≡ ok bytes
    → then_end (decode_doc_body (doc_op_type c) bytes) ≡ ok c
decode_doc_body-encode_doc_body c bytes =
    then_end-Encodes (encode_doc_body c) _ c bytes (doc_body-Encodes c)

-- A key-value command whose encoding succeeds and whose limit is a `u32` is read back from the
-- whole of its bytes.
pub decode_kv_body-encode_kv_body :
    (c : KvCommand) (bytes : List ℕ)
    → IsKv c
    → encode_kv_body c [] ≡ ok bytes
    → then_end (decode_kv_body (kv_op_type c) bytes) ≡ ok c
decode_kv_body-encode_kv_body c bytes h =
    then_end-Encodes (encode_kv_body c) _ c bytes (kv_body-Encodes c h)
