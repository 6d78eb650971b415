-- ===== src/Wal/Record.antt =====
-- crates/prism-wal/src/record.rs: the framing of a log record: header (32 bytes), body, CRC32.
pub mod RoundTrip
pub mod Header
pub mod Frames
pub mod Torn
use prism_db.Common.{
  ℕ, zero, suc, ◌+◌, ◌%◌, ◌^◌, List, [], ◌∷◌, ◌++◌, length, take, drop, if◌then◌else◌, ltb, ◌==◌,
  foldl,
}
use prism_db.Common.Results.{Result, ok, err, and_then}
use prism_db.Common.Bytes.{from_le}
use prism_db.Common.Crc.{Crc32}
use prism_db.Common.Parsers.{Parser, then_read, ◌>>=◌, return, fail, repeat}
use prism_db.Wal.Payload.{
  WalError, unknown_record_type, decode, crc_mismatch, RecordPayload, insert, update, delete,
  commit, abort, clr, begin_checkpoint, checkpoint_contents, end_checkpoint, full_page_image,
  heap_page, LogRecord,
}
use prism_db.Wal.Fields.{put_u16, put_u32, put_u64, put_i64, push, put_bytes_u32}
use prism_db.Wal.Reader

abbrev pub record_header_size : ℕ
record_header_size = 32

abbrev pub record_crc_size : ℕ
record_crc_size = 4

-- The type discriminators.
abbrev pub t_insert : ℕ
t_insert = 0x01

abbrev pub t_update : ℕ
t_update = 0x02

abbrev pub t_delete : ℕ
t_delete = 0x03

abbrev pub t_commit : ℕ
t_commit = 0x10

abbrev pub t_abort : ℕ
t_abort = 0x11

abbrev pub t_clr : ℕ
t_clr = 0x20

abbrev pub t_begin_checkpoint : ℕ
t_begin_checkpoint = 0x30

abbrev pub t_checkpoint_contents : ℕ
t_checkpoint_contents = 0x31

abbrev pub t_end_checkpoint : ℕ
t_end_checkpoint = 0x32

abbrev pub t_full_page_image : ℕ
t_full_page_image = 0x50

abbrev pub t_heap_page : ℕ
t_heap_page = 0x60

-- The bodies of the two loops over a checkpoint's tables.
unfoldable pub put_dirty : List ℕ → ℕ × ℕ → List ℕ
put_dirty out (page_id, rec_lsn) = put_u64 (put_u64 out page_id) rec_lsn

unfoldable pub put_active : List ℕ → ℕ × ℕ × ℕ → List ℕ
put_active out (txn_id, state, last_lsn) = put_u64 (push (put_u64 out txn_id) state) last_lsn

-- The bytes behind `out`, and the discriminator.
unfoldable pub encode_body : RecordPayload → List ℕ → List ℕ × ℕ
encode_body (insert page_id slot_id after_image) out =
    (put_bytes_u32 (put_u16 (put_u64 out page_id) slot_id) after_image, t_insert)
encode_body (update page_id slot_id before_image after_image) out = (
  put_bytes_u32 (put_bytes_u32 (put_u16 (put_u64 out page_id) slot_id) before_image) after_image,
  t_update,
)
encode_body (delete page_id slot_id before_image) out =
    (put_bytes_u32 (put_u16 (put_u64 out page_id) slot_id) before_image, t_delete)
encode_body (commit commit_micros flags) out = (put_u32 (put_i64 out commit_micros) flags, t_commit)
encode_body abort out = (out, t_abort)
encode_body (clr page_id slot_id undo_image undo_next_lsn) out = (
  put_u64 (put_bytes_u32 (put_u16 (put_u64 out page_id) slot_id) undo_image) undo_next_lsn,
  t_clr,
)
encode_body (begin_checkpoint checkpoint_id) out = (put_u64 out checkpoint_id, t_begin_checkpoint)
encode_body (checkpoint_contents dirty_pages active_txns) out =
    let counted = put_u32 out (length dirty_pages % 2 ^ 32) in
    let dirty = foldl put_dirty counted dirty_pages in
    let counted_txns = put_u32 dirty (length active_txns % 2 ^ 32) in
    (foldl put_active counted_txns active_txns, t_checkpoint_contents)
encode_body (end_checkpoint checkpoint_id) out = (put_u64 out checkpoint_id, t_end_checkpoint)
encode_body (full_page_image page_id image) out =
    (put_bytes_u32 (put_u64 out page_id) image, t_full_page_image)
encode_body (heap_page heap_id page_id) out = (put_u64 (put_u64 out heap_id) page_id, t_heap_page)

unfoldable pub read_dirty : Parser WalError (ℕ × ℕ)
read_dirty = do page_id ← Reader.u64; rec_lsn ← Reader.u64; return (page_id, rec_lsn)

unfoldable pub read_active : Parser WalError (ℕ × ℕ × ℕ)
read_active = do
  txn_id ← Reader.u64
  state ← Reader.u8
  last_lsn ← Reader.u64
  return (txn_id, state, last_lsn)

read_image : (ℕ → ℕ → List ℕ → RecordPayload) → Parser WalError RecordPayload
read_image make = do
  page_id ← Reader.u64
  slot_id ← Reader.u16
  image ← Reader.bytes_u32
  return (make page_id slot_id image)

read_update : Parser WalError RecordPayload
read_update = do
  page_id ← Reader.u64
  slot_id ← Reader.u16
  before_image ← Reader.bytes_u32
  after_image ← Reader.bytes_u32
  return (update page_id slot_id before_image after_image)

read_commit : Parser WalError RecordPayload
read_commit = do commit_micros ← Reader.i64; flags ← Reader.u32; return (commit commit_micros flags)

read_clr : Parser WalError RecordPayload
read_clr = do
  page_id ← Reader.u64
  slot_id ← Reader.u16
  undo_image ← Reader.bytes_u32
  undo_next_lsn ← Reader.u64
  return (clr page_id slot_id undo_image undo_next_lsn)

read_checkpoint_id : (ℕ → RecordPayload) → Parser WalError RecordPayload
read_checkpoint_id make = do checkpoint_id ← Reader.u64; return (make checkpoint_id)

read_contents : Parser WalError RecordPayload
read_contents = do
  dirty_count ← Reader.u32
  dirty_pages ← repeat dirty_count read_dirty
  active_count ← Reader.u32
  active_txns ← repeat active_count read_active
  return (checkpoint_contents dirty_pages active_txns)

read_full_page : Parser WalError RecordPayload
read_full_page = do
  page_id ← Reader.u64
  image ← Reader.bytes_u32
  return (full_page_image page_id image)

read_heap_page : Parser WalError RecordPayload
read_heap_page = do heap_id ← Reader.u64; page_id ← Reader.u64; return (heap_page heap_id page_id)

-- The reader for a discriminator; the source makes it and drops what it leaves unread.
payload_reader : ℕ → Parser WalError RecordPayload
unfolding read_image read_update read_commit read_clr read_checkpoint_id read_contents
    read_full_page read_heap_page
payload_reader rtype =
    if rtype == t_insert
    then read_image insert
    else if rtype == t_update
    then read_update
    else if rtype == t_delete
    then read_image delete
    else if rtype == t_commit
    then read_commit
    else if rtype == t_abort
    then return abort
    else if rtype == t_clr
    then read_clr
    else if rtype == t_begin_checkpoint
    then read_checkpoint_id begin_checkpoint
    else if rtype == t_checkpoint_contents
    then read_contents
    else if rtype == t_end_checkpoint
    then read_checkpoint_id end_checkpoint
    else if rtype == t_full_page_image
    then read_full_page
    else if rtype == t_heap_page
    then read_heap_page
    else fail (unknown_record_type rtype)

unfoldable pub decode_body : ℕ → List ℕ → Result WalError RecordPayload
unfolding payload_reader
decode_body rtype body = elim (payload_reader rtype body) [
  | ok (payload, _) ↦ ok payload
  | err e ↦ err e
]

-- Reads at an offset; where the source indexes past the end it panics, and here the missing bytes
-- are zero. `decode_record` reads only what it has checked to be there.
unfoldable pub byte_at : List ℕ → ℕ → ℕ
byte_at b o = from_le (take 1 (drop o b))

unfoldable pub get_u32 : List ℕ → ℕ → ℕ
get_u32 b o = from_le (take 4 (drop o b))

unfoldable pub get_u64 : List ℕ → ℕ → ℕ
get_u64 b o = from_le (take 8 (drop o b))

module _ (crc : Crc32) where
  unfoldable pub assemble_frame : ℕ → ℕ → ℕ → ℕ → List ℕ → List ℕ
  assemble_frame lsn txn_id prev_lsn rtype body =
      let out = put_u64 [] lsn in
      let out = put_u32 out (length body % 2 ^ 32) in
      let out = push out rtype in
      let out = out ++ (0 ∷ 0 ∷ 0 ∷ []) in
      let out = put_u64 out txn_id in
      let out = put_u64 out prev_lsn in let out = out ++ body in put_u32 out (crc.hash out)

  unfoldable pub encode_record : ℕ → LogRecord → List ℕ
  encode_record lsn r =
      let (body, rtype) = encode_body r.payload [] in
      assemble_frame lsn r.txn_id r.prev_lsn rtype body

  -- The record, its LSN, and the bytes consumed.
  unfoldable pub decode_record : List ℕ → Result WalError (ℕ × LogRecord × ℕ)
  decode_record frame =
      if ltb (length frame) record_header_size
      then err (decode "frame shorter than header")
      else let lsn = get_u64 frame 0 in
        let body_len = get_u32 frame 8 in
        let rtype = byte_at frame 12 in
        let txn_id = get_u64 frame 16 in
        let prev_lsn = get_u64 frame 24 in
        let total = record_header_size + body_len + record_crc_size in
        let crc_pos = record_header_size + body_len in
        if ltb (length frame) total
        then err (decode "frame shorter than declared length")
        else if get_u32 frame crc_pos == crc.hash (take crc_pos frame)
        then and_then (decode_body rtype (take body_len (drop record_header_size frame)))
            (λ payload.
              ok (lsn, record { txn_id = txn_id; prev_lsn = prev_lsn; payload = payload }, total))
        else err crc_mismatch
