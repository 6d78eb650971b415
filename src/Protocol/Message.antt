-- ===== src/Protocol/Message.antt =====
-- crates/prism-protocol/src/message.rs: messages and packets. A string is its bytes.
pub mod Bodies
pub mod Parts
pub mod RoundTrip
mod Examples
use Prim.Native.String.{String}
use prism_db.Common.{
  ℕ, zero, suc, ◌+◌, ◌^◌, ◌*◌, bit_and, Bool, true, false, not, List, [], ◌∷◌, ◌++◌, Option, none,
  some, length, replicate, if◌then◌else◌, ltb, ◌==◌,
}
use prism_db.Common.Results.{Result, ok, err, and_then}
use prism_db.Common.Bytes.{to_le, from_le}
use prism_db.Common.Parsers.{Parser, ◌>>=◌, then_read, return, fail, repeat}
use prism_db.Protocol.Errors.{ProtocolError, value_too_large}
use prism_db.Protocol.Codec.{
  Writer, ◌⊳◌, done, put_each, put_u8, put_u16, put_u32, put_u64, put_raw, put_bytes_u16,
  put_bytes_u32, put_count, put_bool, take, get_u8, get_u16, get_u32, get_u64, get_bool,
  get_bytes_u32, get_str_u16, get_str_u32, then_end,
}
use prism_db.Protocol.Value.{
  Value, encode_tagged, decode_tagged, ColumnDesc, encode_column, decode_column,
}
use prism_db.Protocol.Rows.{Row, encode_rows, decode_rows}
use prism_db.Protocol.Commands.{
  DocCommand, doc_op_type, encode_doc_body, decode_doc_body, KvCommand, kv_op_type, encode_kv_body,
  decode_kv_body,
}
use prism_db.Protocol.KvResult.{
  KvResultBody, result_op_type, encode_result_body, decode_result_body,
}
use prism_db.Protocol.Frame
use prism_db.Protocol.MessageType.{
  MessageType, code, try_from, AuthMechanism, password, mtls, mechanism_code, mechanism_from_code,
  TxnMode, mode_code, mode_from_code, NoticeSeverity, severity_code, severity_from_code,
}

unfoldable pub put_u128 : ℕ → Writer
put_u128 v out = ok (out ++ to_le 16 v)

unfoldable pub get_u128 : String → Parser ProtocolError ℕ
get_u128 needed = do b ← take needed 16; return (from_le b)

unfoldable pub put_zeros : ℕ → Writer
put_zeros n out = ok (out ++ replicate n 0)

unfoldable pub skip : ℕ → String → Parser ProtocolError (Unit {0})
skip n needed = do _ ← take needed n; return tt

-- A length as a `u16`, or the error.
unfoldable pub put_count_u16 : String → ℕ → Writer
put_count_u16 field n out =
    if ltb n (2 ^ 16) then ok (out ++ to_le 2 n) else err (value_too_large field)

pub record ErrorInfo : Type 0 where
  pub error_code : ℕ
  pub message : List ℕ
  pub sqlstate : List ℕ
  pub detail : List ℕ
  pub position : ℕ

abbrev pub default_error : ErrorInfo
default_error = record {
  error_code = 0;
  message = [];
  sqlstate = b'0' ∷ b'0' ∷ b'0' ∷ b'0' ∷ b'0' ∷ [];
  detail = [];
  position = 0;
}

unfoldable pub encode_error : ErrorInfo → Writer
encode_error e =
    put_u32 e.error_code
    ⊳ (put_bytes_u16 "error.message" e.message
        ⊳ (put_raw e.sqlstate ⊳ (put_bytes_u16 "error.detail" e.detail ⊳ put_u32 e.position)))

unfoldable pub decode_error : Parser ProtocolError ErrorInfo
decode_error = do
  error_code ← get_u32 "error.error_code"
  message ← get_str_u16 "error.message"
  sqlstate ← take "error.sqlstate" 5
  detail ← get_str_u16 "error.detail"
  position ← get_u32 "error.position"
  return (record {
    error_code = error_code;
    message = message;
    sqlstate = sqlstate;
    detail = detail;
    position = position;
  })

unfoldable pub error_or_default : Option ErrorInfo → ErrorInfo
error_or_default none = default_error
error_or_default (some e) = e

unfoldable pub put_trailer : ℕ → Option ErrorInfo → Writer
put_trailer status error = if status == 0 then done else encode_error (error_or_default error)

unfoldable pub some_error : Parser ProtocolError (Option ErrorInfo)
some_error = do e ← decode_error; return (some e)

unfoldable pub get_trailer : ℕ → Parser ProtocolError (Option ErrorInfo)
get_trailer status = if status == 0 then return none else some_error

pub data Message : Type 0 where
  hello :
      (protocol_version : ℕ) (client_name client_version : List ℕ) (features : ℕ)
      (database : List ℕ)
      → Message
  hello_ack :
      (status : ℕ) (server_version : List ℕ) (features session_id : ℕ) (error : Option ErrorInfo)
      → Message
  auth : (mechanism : AuthMechanism) (username password : List ℕ) → Message
  auth_ack : (status user_oid : ℕ) (error : Option ErrorInfo) → Message
  begin : (mode : TxnMode) → Message
  commit : (idempotency_key : ℕ) → Message
  abort : Message
  txn_ack : (status txn_id commit_lsn : ℕ) (error : Option ErrorInfo) → Message
  sql_execute : (sql : List ℕ) (params : List Value) (options : ℕ) → Message
  sql_result :
      (status affected_rows : ℕ) (columns : List ColumnDesc) (rows : List Row) (more_frames : Bool)
      (error : Option ErrorInfo)
      → Message
  doc_op : (collection : List ℕ) (command : DocCommand) → Message
  doc_result :
      (status affected : ℕ) (inserted_ids docs : List (List ℕ)) (more_frames : Bool)
      (error : Option ErrorInfo)
      → Message
  kv_op : (namespace : List ℕ) (command : KvCommand) → Message
  kv_result : (status : ℕ) (body : KvResultBody) (error : Option ErrorInfo) → Message
  cancel : (target_request_id : ℕ) → Message
  notice : (severity : NoticeSeverity) (code : ℕ) (message : List ℕ) → Message
  ping pong : Message

unfoldable pub message_type : Message → MessageType
message_type (hello _ _ _ _ _) = MessageType.hello
message_type (hello_ack _ _ _ _ _) = MessageType.hello_ack
message_type (auth _ _ _) = MessageType.auth
message_type (auth_ack _ _ _) = MessageType.auth_ack
message_type (begin _) = MessageType.begin
message_type (commit _) = MessageType.commit
message_type abort = MessageType.abort
message_type (txn_ack _ _ _ _) = MessageType.txn_ack
message_type (sql_execute _ _ _) = MessageType.sql_execute
message_type (sql_result _ _ _ _ _ _) = MessageType.sql_result
message_type (doc_op _ _) = MessageType.doc_op
message_type (doc_result _ _ _ _ _ _) = MessageType.doc_result
message_type (kv_op _ _) = MessageType.kv_op
message_type (kv_result _ _ _) = MessageType.kv_result
message_type (cancel _) = MessageType.cancel
message_type (notice _ _ _) = MessageType.notice
message_type ping = MessageType.ping
message_type pong = MessageType.pong

abbrev pub feature_connect_db : ℕ
feature_connect_db = 1

unfoldable pub connects_db : ℕ → Bool
connects_db features = not (bit_and features feature_connect_db == 0)

-- `Message::hello`: the database and its feature bit agree.
unfoldable pub new_hello : ℕ → List ℕ → List ℕ → List ℕ → Message
new_hello protocol_version client_name client_version [] =
    hello protocol_version client_name client_version 0 []
new_hello protocol_version client_name client_version (c ∷ database) =
    hello protocol_version client_name client_version feature_connect_db (c ∷ database)

unfoldable pub put_password : AuthMechanism → List ℕ → Writer
put_password password p = put_bytes_u16 "auth.password" p
put_password mtls p = done

unfoldable pub put_database : Bool → List ℕ → Writer
put_database true database = put_bytes_u16 "hello.database" database
put_database false database = done

unfoldable pub encode_body : Message → Writer
encode_body (hello protocol_version client_name client_version features database) =
    put_u32 protocol_version
    ⊳ (put_bytes_u16 "hello.client_name" client_name
        ⊳ (put_bytes_u16 "hello.client_version" client_version
            ⊳ (put_u32 features ⊳ put_database (connects_db features) database)))
encode_body (hello_ack status server_version features session_id error) =
    put_u8 status
    ⊳ (put_bytes_u16 "hello_ack.server_version" server_version
        ⊳ (put_u32 features ⊳ (put_u128 session_id ⊳ put_trailer status error)))
encode_body (auth mechanism username p) =
    put_u8 (mechanism_code mechanism)
    ⊳ (put_bytes_u16 "auth.username" username ⊳ put_password mechanism p)
encode_body (auth_ack status user_oid error) =
    put_u8 status ⊳ (put_u64 user_oid ⊳ put_trailer status error)
encode_body (begin mode) = put_u8 (mode_code mode)
encode_body (commit idempotency_key) = put_u128 idempotency_key
encode_body abort = done
encode_body (txn_ack status txn_id commit_lsn error) =
    put_u8 status ⊳ (put_u64 txn_id ⊳ (put_u64 commit_lsn ⊳ put_trailer status error))
encode_body (sql_execute sql params options) =
    put_bytes_u32 "sql.sql" sql
    ⊳ (put_count_u16 "sql.param_count" (length params)
        ⊳ (put_each encode_tagged params ⊳ put_u32 options))
encode_body (sql_result status affected_rows columns rows more_frames error) =
    put_u8 status
    ⊳ (put_u64 affected_rows
        ⊳ (put_count_u16 "sql.column_count" (length columns)
            ⊳ (put_each encode_column columns
                ⊳ (put_count "sql.row_count" (length rows)
                    ⊳ (encode_rows columns rows
                        ⊳ (put_bool more_frames ⊳ put_trailer status error))))))
encode_body (doc_op collection command) =
    put_u8 (doc_op_type command)
    ⊳ (put_bytes_u16 "doc.collection" collection ⊳ encode_doc_body command)
encode_body (doc_result status affected inserted_ids docs more_frames error) =
    put_u8 status
    ⊳ (put_u64 affected
        ⊳ (put_count "doc.inserted_count" (length inserted_ids)
            ⊳ (put_each put_raw inserted_ids
                ⊳ (put_count "doc.doc_count" (length docs)
                    ⊳ (put_each (put_bytes_u32 "doc.result_doc") docs
                        ⊳ (put_bool more_frames ⊳ put_trailer status error))))))
encode_body (kv_op namespace command) =
    put_u8 (kv_op_type command) ⊳ (put_bytes_u16 "kv.namespace" namespace ⊳ encode_kv_body command)
encode_body (kv_result status body error) =
    put_u8 status
    ⊳ (put_u8 (result_op_type body) ⊳ (encode_result_body body ⊳ put_trailer status error))
encode_body (cancel target_request_id) = put_u32 target_request_id
encode_body (notice severity code message) =
    put_u8 (severity_code severity) ⊳ (put_u32 code ⊳ put_bytes_u16 "notice.message" message)
encode_body ping = done
encode_body pong = done
