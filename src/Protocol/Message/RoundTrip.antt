-- ===== src/Protocol/Message/RoundTrip.antt =====
-- crates/prism-protocol/src/message.rs: messages and packets, encoded and decoded.
use prism_db.Common.{ℕ, ◌≡◌, List, length, All}
use prism_db.Common.Results.{ok}
use prism_db.Common.Bytes.{IsU32, IsU64}
use prism_db.Protocol.Codec.{put_raw, put_bytes_u32}
use prism_db.Protocol.Encodes.{
  Encodes, done-Encodes, then-Encodes, map-Encodes, put_each-Encodes, put_all-Encodes,
  then_end-Encodes,
}
use prism_db.Protocol.Fields.{
  u8-Encodes, u32-Encodes, u64-Encodes, raw-Encodes, bool-Encodes, count-Encodes, bytes_u32-Encodes,
  str_u16-Encodes, str_u32-Encodes,
}
use prism_db.Protocol.Value.{encode_tagged, encode_column, decode_column}
use prism_db.Protocol.Value.RoundTrip.{IsValue, tagged-Encodes, column-Encodes}
use prism_db.Protocol.Rows.RoundTrip.{IsRow, rows-Encodes}
use prism_db.Protocol.Commands.RoundTrip.{IsKv, doc_body-Encodes, kv_body-Encodes}
use prism_db.Protocol.KvResult.RoundTrip.{result_body-Encodes}
use prism_db.Protocol.MessageType.{
  try_from, try_from-code, mechanism_from_code, mode_from_code, severity_from_code,
}
use prism_db.Protocol.Message.{
  Message, hello, hello_ack, auth, auth_ack, begin, commit, abort, txn_ack, sql_execute, sql_result,
  doc_op, doc_result, kv_op, kv_result, cancel, notice, ping, pong, message_type, connects_db,
  encode_body,
}
use prism_db.Protocol.Message.Bodies.{
  decode_body, Packet, write_packet, to_payload, read_packet, from_payload,
}
use prism_db.Protocol.Message.Parts.{
  IsU128, u128-Encodes, zeros-Encodes, count_u16-Encodes, code-Encodes,
  mechanism_from_code-mechanism_code, mode_from_code-mode_code, severity_from_code-severity_code,
  IsStr, IsTrailer, trailer-Encodes, database-Encodes, password-Encodes, carried_error,
  carried_database, carried_password,
}

-- What the Rust types promise of a message, and that its rows have a cell for each column, null or of
-- the column's type.
abbrev pub IsMessage : Message → Type 0
IsMessage (hello protocol_version client_name client_version features database) =
    IsU32 protocol_version
    × IsStr client_name
    × IsStr client_version
    × IsU32 features
    × IsStr database
IsMessage (hello_ack status server_version features session_id error) =
    IsStr server_version × IsU32 features × IsU128 session_id × IsTrailer error
IsMessage (auth mechanism username p) = IsStr username × IsStr p
IsMessage (auth_ack status user_oid error) = IsU64 user_oid × IsTrailer error
IsMessage (begin mode) = Unit
IsMessage (commit idempotency_key) = IsU128 idempotency_key
IsMessage abort = Unit
IsMessage (txn_ack status txn_id commit_lsn error) =
    IsU64 txn_id × IsU64 commit_lsn × IsTrailer error
IsMessage (sql_execute sql params options) = IsStr sql × All IsValue params × IsU32 options
IsMessage (sql_result status affected_rows columns rows more_frames error) =
    IsU64 affected_rows
    × All (λ c. IsStr c.name) columns
    × All (IsRow columns) rows
    × IsTrailer error
IsMessage (doc_op collection command) = IsStr collection
IsMessage (doc_result status affected inserted_ids docs more_frames error) =
    IsU64 affected × All (λ id. length id ≡ 12) inserted_ids × IsTrailer error
IsMessage (kv_op namespace command) = IsStr namespace × IsKv command
IsMessage (kv_result status body error) = IsTrailer error
IsMessage (cancel target_request_id) = IsU32 target_request_id
IsMessage (notice severity c message) = IsU32 c × IsStr message
IsMessage ping = Unit
IsMessage pong = Unit

-- What the wire carries of a message: an error where the status is not zero, the database where the
-- features say so, and the password where the mechanism takes one.
unfoldable pub carried : Message → Message
carried (hello protocol_version client_name client_version features database) =
    hello protocol_version client_name client_version features
      (carried_database (connects_db features) database)
carried (hello_ack status server_version features session_id error) =
    hello_ack status server_version features session_id (carried_error status error)
carried (auth mechanism username p) = auth mechanism username (carried_password mechanism p)
carried (auth_ack status user_oid error) = auth_ack status user_oid (carried_error status error)
carried (begin mode) = begin mode
carried (commit idempotency_key) = commit idempotency_key
carried abort = abort
carried (txn_ack status txn_id commit_lsn error) =
    txn_ack status txn_id commit_lsn (carried_error status error)
carried (sql_execute sql params options) = sql_execute sql params options
carried (sql_result status affected_rows columns rows more_frames error) =
    sql_result status affected_rows columns rows more_frames (carried_error status error)
carried (doc_op collection command) = doc_op collection command
carried (doc_result status affected inserted_ids docs more_frames error) =
    doc_result status affected inserted_ids docs more_frames (carried_error status error)
carried (kv_op namespace command) = kv_op namespace command
carried (kv_result status body error) = kv_result status body (carried_error status error)
carried (cancel target_request_id) = cancel target_request_id
carried (notice severity c message) = notice severity c message
carried ping = ping
carried pong = pong

body-Encodes :
    (m : Message) → IsMessage m → Encodes (encode_body m) (decode_body (message_type m)) (carried m)
unfolding encode_body decode_body message_type carried
body-Encodes (hello v n cv f d) (hv, hn, hcv, hf, hd) = then-Encodes _ (u32-Encodes _ v hv) (
    then-Encodes _ (str_u16-Encodes _ n hn) (
      then-Encodes _ (str_u16-Encodes _ cv hcv) (
        then-Encodes _ (u32-Encodes _ f hf)
          (map-Encodes (hello v n cv f) (database-Encodes (connects_db f) d hd)))))
body-Encodes (hello_ack s v f i e) (hv, hf, hi, he) = then-Encodes _ (u8-Encodes _ s) (
    then-Encodes _ (str_u16-Encodes _ v hv) (
      then-Encodes _ (u32-Encodes _ f hf) (
        then-Encodes _ (u128-Encodes _ i hi)
          (map-Encodes (hello_ack s v f i) (trailer-Encodes s e he)))))
body-Encodes (auth m u p) (hu, hp) =
    then-Encodes _ (code-Encodes _ mechanism_from_code _ m (mechanism_from_code-mechanism_code m))
      (then-Encodes _ (str_u16-Encodes _ u hu) (map-Encodes (auth m u) (password-Encodes m p hp)))
body-Encodes (auth_ack s o e) (ho, he) =
    then-Encodes _ (u8-Encodes _ s)
      (then-Encodes _ (u64-Encodes _ o ho) (map-Encodes (auth_ack s o) (trailer-Encodes s e he)))
body-Encodes (begin m) h =
    map-Encodes begin (code-Encodes _ mode_from_code _ m (mode_from_code-mode_code m))
body-Encodes (commit k) h = map-Encodes commit (u128-Encodes _ k h)
body-Encodes abort h = done-Encodes abort
body-Encodes (txn_ack s t l e) (ht, hl, he) = then-Encodes _ (u8-Encodes _ s) (
    then-Encodes _ (u64-Encodes _ t ht)
      (then-Encodes _ (u64-Encodes _ l hl) (map-Encodes (txn_ack s t l) (trailer-Encodes s e he))))
body-Encodes (sql_execute q ps o) (hq, hps, ho) = then-Encodes _ (str_u32-Encodes _ q hq) (
    then-Encodes _ (count_u16-Encodes _ _ (length ps)) (
      then-Encodes _ (put_each-Encodes encode_tagged _ ps IsValue tagged-Encodes hps)
        (map-Encodes (sql_execute q ps) (u32-Encodes _ o ho))))
body-Encodes (sql_result s a cs rs b e) (ha, hcs, hrs, he) = then-Encodes _ (u8-Encodes _ s) (
    then-Encodes _ (u64-Encodes _ a ha) (
      then-Encodes _ (count_u16-Encodes _ _ (length cs)) (
        then-Encodes _
          (put_each-Encodes encode_column decode_column cs (λ c. IsStr c.name) column-Encodes hcs)
          (then-Encodes _ (count-Encodes _ _ (length rs)) (
            then-Encodes _ (rows-Encodes cs rs hrs) (
              then-Encodes _ (bool-Encodes _ b)
                (map-Encodes (sql_result s a cs rs b) (trailer-Encodes s e he))))))))
body-Encodes (doc_op c d) hc =
    then-Encodes _ (u8-Encodes _ _)
      (then-Encodes _ (str_u16-Encodes _ c hc) (map-Encodes (doc_op c) (doc_body-Encodes d)))
body-Encodes (doc_result s a is ds b e) (ha, his, he) = then-Encodes _ (u8-Encodes _ s) (
    then-Encodes _ (u64-Encodes _ a ha) (
      then-Encodes _ (count-Encodes _ _ (length is)) (
        then-Encodes _
          (put_each-Encodes put_raw _ is (λ id. length id ≡ 12) (λ id h. raw-Encodes _ 12 id h) his)
          (then-Encodes _ (count-Encodes _ _ (length ds)) (
            then-Encodes _
              (put_all-Encodes (put_bytes_u32 "doc.result_doc") _ ds (λ d. bytes_u32-Encodes _ _ d))
              (then-Encodes _ (bool-Encodes _ b)
                (map-Encodes (doc_result s a is ds b) (trailer-Encodes s e he))))))))
body-Encodes (kv_op n c) (hn, hc) =
    then-Encodes _ (u8-Encodes _ _)
      (then-Encodes _ (str_u16-Encodes _ n hn) (map-Encodes (kv_op n) (kv_body-Encodes c hc)))
body-Encodes (kv_result s b e) he = then-Encodes _ (u8-Encodes _ s) (
    then-Encodes _ (u8-Encodes _ _) (
      then-Encodes _ (result_body-Encodes b)
        (map-Encodes (kv_result s b) (trailer-Encodes s e he))))
body-Encodes (cancel t) h = map-Encodes cancel (u32-Encodes _ t h)
body-Encodes (notice s c m) (hc, hm) =
    then-Encodes _ (code-Encodes _ severity_from_code _ s (severity_from_code-severity_code s))
      (then-Encodes _ (u32-Encodes _ c hc) (map-Encodes (notice s c) (str_u16-Encodes _ m hm)))
body-Encodes ping h = done-Encodes ping
body-Encodes pong h = done-Encodes pong

-- A packet as the wire carries it.
abbrev pub carried_packet : Packet → Packet
carried_packet p = record { request_id = p.request_id; message = carried p.message }

packet-Encodes :
    (p : Packet)
    → IsU32 p.request_id
    → IsMessage p.message
    → Encodes (write_packet p) read_packet (carried_packet p)
unfolding write_packet read_packet
packet-Encodes p hid h =
    then-Encodes _
      (code-Encodes _ try_from _ (message_type p.message) (try_from-code (message_type p.message)))
      (then-Encodes _ (zeros-Encodes _ 3) (
        then-Encodes _ (u32-Encodes _ p.request_id hid) (
          then-Encodes _ (zeros-Encodes _ 4) (
            map-Encodes (λ m. record { request_id = p.request_id; message = m })
              (body-Encodes p.message h)))))

-- A packet whose encoding succeeds is read back from the whole of its payload, for each of the
-- eighteen messages, with no error for a status of zero and the blank error for another status that
-- has none, and with an empty database or password where the features or the mechanism leave it out.
-- Its numbers are in the ranges of their types and its strings are UTF-8, and the rows of a result
-- have a cell for each column, null or of the column's type.
pub from_payload-to_payload :
    (p : Packet) (payload : List ℕ)
    → IsU32 p.request_id
    → IsMessage p.message
    → to_payload p ≡ ok payload
    → from_payload payload ≡ ok (carried_packet p)
unfolding to_payload from_payload
from_payload-to_payload p payload hid h e =
    then_end-Encodes (write_packet p) read_packet (carried_packet p) payload
      (packet-Encodes p hid h) e
