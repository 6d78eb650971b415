-- ===== src/Protocol/MessageType.antt =====
-- crates/prism-protocol/src/message.rs: the discriminants of messages and of their enumerations.
use prism_db.Common.{ℕ, ◌≡◌, refl, if◌then◌else◌, ◌==◌}
use prism_db.Common.Results.{Result, ok, err}
use prism_db.Protocol.Errors.{ProtocolError, unknown_message_type, bad_enum}

pub data MessageType : Type 0 where
  hello hello_ack auth auth_ack begin commit abort txn_ack sql_execute sql_result doc_op doc_result
        kv_op kv_result cancel notice ping pong :
      MessageType

unfoldable pub code : MessageType → ℕ
code hello = 0x01
code hello_ack = 0x02
code auth = 0x03
code auth_ack = 0x04
code begin = 0x10
code commit = 0x11
code abort = 0x12
code txn_ack = 0x13
code sql_execute = 0x20
code sql_result = 0x21
code doc_op = 0x30
code doc_result = 0x31
code kv_op = 0x40
code kv_result = 0x41
code cancel = 0x50
code notice = 0x60
code ping = 0x70
code pong = 0x71

unfoldable pub try_from : ℕ → Result ProtocolError MessageType
try_from v =
    if v == 0x01
    then ok hello
    else if v == 0x02
    then ok hello_ack
    else if v == 0x03
    then ok auth
    else if v == 0x04
    then ok auth_ack
    else if v == 0x10
    then ok begin
    else if v == 0x11
    then ok commit
    else if v == 0x12
    then ok abort
    else if v == 0x13
    then ok txn_ack
    else if v == 0x20
    then ok sql_execute
    else if v == 0x21
    then ok sql_result
    else if v == 0x30
    then ok doc_op
    else if v == 0x31
    then ok doc_result
    else if v == 0x40
    then ok kv_op
    else if v == 0x41
    then ok kv_result
    else if v == 0x50
    then ok cancel
    else if v == 0x60
    then ok notice
    else if v == 0x70
    then ok ping
    else if v == 0x71
    then ok pong
    else err (unknown_message_type v)

pub try_from-code : (t : MessageType) → try_from (code t) ≡ ok t
unfolding try_from code
try_from-code hello = refl
try_from-code hello_ack = refl
try_from-code auth = refl
try_from-code auth_ack = refl
try_from-code begin = refl
try_from-code commit = refl
try_from-code abort = refl
try_from-code txn_ack = refl
try_from-code sql_execute = refl
try_from-code sql_result = refl
try_from-code doc_op = refl
try_from-code doc_result = refl
try_from-code kv_op = refl
try_from-code kv_result = refl
try_from-code cancel = refl
try_from-code notice = refl
try_from-code ping = refl
try_from-code pong = refl

pub data AuthMechanism : Type 0 where
  password mtls : AuthMechanism

unfoldable pub mechanism_code : AuthMechanism → ℕ
mechanism_code password = 1
mechanism_code mtls = 2

unfoldable pub mechanism_from_code : ℕ → Result ProtocolError AuthMechanism
mechanism_from_code v =
    if v == 1 then ok password else if v == 2 then ok mtls else err (bad_enum "auth.mechanism" v)

pub data TxnMode : Type 0 where
  read_write read_only : TxnMode

unfoldable pub mode_code : TxnMode → ℕ
mode_code read_write = 0
mode_code read_only = 1

unfoldable pub mode_from_code : ℕ → Result ProtocolError TxnMode
mode_from_code v =
    if v == 0 then ok read_write else if v == 1 then ok read_only else err (bad_enum "begin.mode" v)

pub data NoticeSeverity : Type 0 where
  info warning error : NoticeSeverity

unfoldable pub severity_code : NoticeSeverity → ℕ
severity_code info = 0
severity_code warning = 1
severity_code error = 2

unfoldable pub severity_from_code : ℕ → Result ProtocolError NoticeSeverity
severity_from_code v =
    if v == 0
    then ok info
    else if v == 1
    then ok warning
    else if v == 2
    then ok error
    else err (bad_enum "notice.severity" v)
