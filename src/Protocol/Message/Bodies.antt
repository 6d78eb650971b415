-- ===== src/Protocol/Message/Bodies.antt =====
-- crates/prism-protocol/src/message.rs: messages decoded, and packets.
use Prim.Native.String.{String}
use prism_db.Common.{ℕ, Bool, true, false, List, []}
use prism_db.Common.Results.{Result, ok, and_then}
use prism_db.Common.Parsers.{Parser, ◌>>=◌, return, repeat}
use prism_db.Protocol.Errors.{ProtocolError}
use prism_db.Protocol.Codec.{
  Writer, ◌⊳◌, put_u8, put_u32, take, get_u8, get_u16, get_u32, get_u64, get_bool, get_bytes_u32,
  get_str_u16, get_str_u32, then_end,
}
use prism_db.Protocol.Value.{decode_tagged, decode_column}
use prism_db.Protocol.Rows.{decode_rows}
use prism_db.Protocol.Commands.{decode_doc_body, decode_kv_body}
use prism_db.Protocol.KvResult.{decode_result_body}
use prism_db.Protocol.Frame
use prism_db.Protocol.MessageType.{
  MessageType, code, try_from, AuthMechanism, password, mtls, mechanism_from_code, mode_from_code,
  severity_from_code,
}
use prism_db.Protocol.Message.{
  Message, message_type, connects_db, put_zeros, get_u128, skip, get_trailer, encode_body,
}

-- `E::from_code(r.get_u8(..)?)?`
unfoldable pub get_code {ℓ} :
    {A : Type ℓ} → String → (ℕ → Result ProtocolError A) → Parser ProtocolError A
get_code needed from b =
    and_then (get_u8 needed b) (λ (v, rest). and_then (from v) (λ a. ok (a, rest)))

unfoldable pub get_database : Bool → Parser ProtocolError (List ℕ)
get_database true = get_str_u16 "hello.database"
get_database false = return []

unfoldable pub get_password : AuthMechanism → Parser ProtocolError (List ℕ)
get_password password = get_str_u16 "auth.password"
get_password mtls = return []

unfoldable pub decode_body : MessageType → Parser ProtocolError Message
decode_body MessageType.hello = do
  protocol_version ← get_u32 "hello.protocol_version"
  client_name ← get_str_u16 "hello.client_name"
  client_version ← get_str_u16 "hello.client_version"
  features ← get_u32 "hello.features"
  database ← get_database (connects_db features)
  return (Message.hello protocol_version client_name client_version features database)
decode_body MessageType.hello_ack = do
  status ← get_u8 "hello_ack.status"
  server_version ← get_str_u16 "hello_ack.server_version"
  features ← get_u32 "hello_ack.features"
  session_id ← get_u128 "hello_ack.session_id"
  error ← get_trailer status
  return (Message.hello_ack status server_version features session_id error)
decode_body MessageType.auth = do
  mechanism ← get_code "auth.mechanism" mechanism_from_code
  username ← get_str_u16 "auth.username"
  p ← get_password mechanism
  return (Message.auth mechanism username p)
decode_body MessageType.auth_ack = do
  status ← get_u8 "auth_ack.status"
  user_oid ← get_u64 "auth_ack.user_oid"
  error ← get_trailer status
  return (Message.auth_ack status user_oid error)
decode_body MessageType.begin = do
  mode ← get_code "begin.mode" mode_from_code
  return (Message.begin mode)
decode_body MessageType.commit = do
  idempotency_key ← get_u128 "commit.idempotency_key"
  return (Message.commit idempotency_key)
decode_body MessageType.abort = return Message.abort
decode_body MessageType.txn_ack = do
  status ← get_u8 "txn_ack.status"
  txn_id ← get_u64 "txn_ack.txn_id"
  commit_lsn ← get_u64 "txn_ack.commit_lsn"
  error ← get_trailer status
  return (Message.txn_ack status txn_id commit_lsn error)
decode_body MessageType.sql_execute = do
  sql ← get_str_u32 "sql.sql"
  param_count ← get_u16 "sql.param_count"
  params ← repeat param_count decode_tagged
  options ← get_u32 "sql.options"
  return (Message.sql_execute sql params options)
decode_body MessageType.sql_result = do
  status ← get_u8 "sql.status"
  affected_rows ← get_u64 "sql.affected_rows"
  col_count ← get_u16 "sql.column_count"
  columns ← repeat col_count decode_column
  row_count ← get_u32 "sql.row_count"
  rows ← decode_rows columns row_count
  more_frames ← get_bool "sql.more_frames"
  error ← get_trailer status
  return (Message.sql_result status affected_rows columns rows more_frames error)
decode_body MessageType.doc_op = do
  op_type ← get_u8 "doc.op_type"
  collection ← get_str_u16 "doc.collection"
  command ← decode_doc_body op_type
  return (Message.doc_op collection command)
decode_body MessageType.doc_result = do
  status ← get_u8 "doc.status"
  affected ← get_u64 "doc.affected"
  id_count ← get_u32 "doc.inserted_count"
  inserted_ids ← repeat id_count (take "doc.inserted_id" 12)
  doc_count ← get_u32 "doc.doc_count"
  docs ← repeat doc_count (get_bytes_u32 "doc.result_doc")
  more_frames ← get_bool "doc.more_frames"
  error ← get_trailer status
  return (Message.doc_result status affected inserted_ids docs more_frames error)
decode_body MessageType.kv_op = do
  op_type ← get_u8 "kv.op_type"
  namespace ← get_str_u16 "kv.namespace"
  command ← decode_kv_body op_type
  return (Message.kv_op namespace command)
decode_body MessageType.kv_result = do
  status ← get_u8 "kv.status"
  op_type ← get_u8 "kv.op_type"
  body ← decode_result_body op_type
  error ← get_trailer status
  return (Message.kv_result status body error)
decode_body MessageType.cancel = do
  target_request_id ← get_u32 "cancel.target_request_id"
  return (Message.cancel target_request_id)
decode_body MessageType.notice = do
  severity ← get_code "notice.severity" severity_from_code
  c ← get_u32 "notice.code"
  message ← get_str_u16 "notice.message"
  return (Message.notice severity c message)
decode_body MessageType.ping = return Message.ping
decode_body MessageType.pong = return Message.pong

pub record Packet : Type 0 where
  pub request_id : ℕ
  pub message : Message

unfoldable pub write_packet : Packet → Writer
write_packet p =
    put_u8 (code (message_type p.message))
    ⊳ (put_zeros 3 ⊳ (put_u32 p.request_id ⊳ (put_zeros 4 ⊳ encode_body p.message)))

unfoldable pub to_payload : Packet → Result ProtocolError (List ℕ)
to_payload p = write_packet p []

unfoldable pub read_packet : Parser ProtocolError Packet
read_packet = do
  ty ← get_code "header.msg_type" try_from
  _ ← skip 3 "header.reserved"
  request_id ← get_u32 "header.request_id"
  _ ← skip 4 "header.reserved"
  message ← decode_body ty
  return (record { request_id = request_id; message = message })

unfoldable pub from_payload : List ℕ → Result ProtocolError Packet
from_payload payload = then_end (read_packet payload)

unfoldable pub to_frame : Packet → Result ProtocolError (List ℕ)
to_frame p = and_then (to_payload p) (λ payload. ok (Frame.encode payload))
