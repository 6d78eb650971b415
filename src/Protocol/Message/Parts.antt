-- ===== src/Protocol/Message/Parts.antt =====
-- crates/prism-protocol/src/message.rs: the fields and trailers of messages, encoded
-- and decoded.
use Prim.Native.String.{String}
use prism_db.Common.{
  ℕ, ◌≡◌, ◌<◌, ◌^◌, refl, Bool, true, false, List, [], inl, inr, Bool-cases, arith, if◌then◌else◌,
  Option, none, some, length, replicate, length-replicate, ◌==◌,
}
use prism_db.Common.Results.{Result, ok}
use prism_db.Common.Bytes.{IsU32, to_le, length-to_le, from_le-to_le}
use prism_db.Protocol.Errors.{ProtocolError}
use prism_db.Protocol.Utf8.{is_utf8, valid_after}
use prism_db.Protocol.Codec.{put_u8, get_u16}
use prism_db.Protocol.Encodes.{Encodes, done-Encodes, then-Encodes, map-Encodes, appends-Encodes}
use prism_db.Protocol.Fields.{
  u8-Encodes, u16-Reads, u32-Encodes, raw-Encodes, guard_ok, take-append, str_u16-Encodes,
}
use prism_db.Protocol.MessageType.{
  AuthMechanism, password, mtls, mechanism_code, mechanism_from_code, TxnMode, read_write,
  read_only, mode_code, mode_from_code, NoticeSeverity, info, warning, severity_code,
  severity_from_code,
}
use prism_db.Protocol.Message.{
  ErrorInfo, default_error, encode_error, decode_error, error_or_default, put_trailer, get_trailer,
  some_error, put_u128, get_u128, put_zeros, skip, put_count_u16, put_password, put_database,
}
use prism_db.Protocol.Message.Bodies.{get_code, get_database, get_password}

abbrev pub IsU128 : ℕ → Type 0
IsU128 n = n < 256 ^ 16

pub u128-Encodes : (needed : String) (v : ℕ) → IsU128 v → Encodes (put_u128 v) (get_u128 needed) v
unfolding put_u128 get_u128
u128-Encodes needed v h =
    appends-Encodes (put_u128 v) (get_u128 needed) v (to_le 16 v) (λ out. refl)
      (λ rest.
        rw (take-append needed 16 (to_le 16 v) (length-to_le 16 v) rest, from_le-to_le 16 v h))

pub zeros-Encodes : (needed : String) (n : ℕ) → Encodes (put_zeros n) (skip n needed) tt
unfolding put_zeros skip
zeros-Encodes needed n =
    appends-Encodes (put_zeros n) (skip n needed) tt (replicate n 0) (λ out. refl)
      (λ rest. rw (take-append needed n (replicate n 0) (length-replicate n 0) rest))

pub count_u16-Encodes :
    (needed field : String) (n : ℕ) → Encodes (put_count_u16 field n) (get_u16 needed) n
unfolding put_count_u16
count_u16-Encodes needed field n = record {
  appended = λ out out' e.
      let (fits, app) = guard_ok n (2 ^ 16) _ _ out' e in (to_le 2 n, app, u16-Reads needed n fits);
}

-- A code that its enumeration reads back.
pub code-Encodes {ℓ} :
    {A : Type ℓ} (needed : String) (from : ℕ → Result ProtocolError A) (v : ℕ) (a : A)
    → from v ≡ ok a
    → Encodes (put_u8 v) (get_code needed from) a
unfolding get_code
code-Encodes needed from v a h = record {
  appended = λ out out' e.
      let (bs, app, reads) = (u8-Encodes needed v).appended out out' e in
      (bs, app, λ rest. rw (reads rest, h));
}

pub mechanism_from_code-mechanism_code :
    (m : AuthMechanism) → mechanism_from_code (mechanism_code m) ≡ ok m
unfolding mechanism_from_code mechanism_code
mechanism_from_code-mechanism_code password = refl
mechanism_from_code-mechanism_code mtls = refl

pub mode_from_code-mode_code : (m : TxnMode) → mode_from_code (mode_code m) ≡ ok m
unfolding mode_from_code mode_code
mode_from_code-mode_code read_write = refl
mode_from_code-mode_code read_only = refl

pub severity_from_code-severity_code :
    (s : NoticeSeverity) → severity_from_code (severity_code s) ≡ ok s
unfolding severity_from_code severity_code
severity_from_code-severity_code info = refl
severity_from_code-severity_code warning = refl
severity_from_code-severity_code NoticeSeverity.error = refl

abbrev pub IsStr : List ℕ → Type 0
IsStr s = is_utf8 s ≡ true

abbrev pub IsError : ErrorInfo → Type 0
IsError e =
    IsU32 e.error_code
    × IsStr e.message
    × (length e.sqlstate ≡ 5)
    × IsStr e.detail
    × IsU32 e.position

pub error-Encodes : (e : ErrorInfo) → IsError e → Encodes (encode_error e) decode_error e
unfolding encode_error decode_error
error-Encodes e (code, message, sqlstate, detail, position) =
    then-Encodes _ (u32-Encodes _ e.error_code code) (
      then-Encodes _ (str_u16-Encodes _ e.message message) (
        then-Encodes _ (raw-Encodes _ 5 e.sqlstate sqlstate) (
          then-Encodes _ (str_u16-Encodes _ e.detail detail) (
            map-Encodes
              (λ p. record {
                error_code = e.error_code;
                message = e.message;
                sqlstate = e.sqlstate;
                detail = e.detail;
                position = p;
              })
              (u32-Encodes _ e.position position)))))

-- The error is one that Rust can build.
abbrev pub IsTrailer : Option ErrorInfo → Type 0
IsTrailer none = Unit
IsTrailer (some e) = IsError e

-- What the wire carries of an error: none for a status of zero, and for any other status the error
-- or the blank one.
unfoldable pub carried_error : ℕ → Option ErrorInfo → Option ErrorInfo
carried_error status error = if status == 0 then none else some (error_or_default error)

blank-IsError : IsError default_error
unfolding is_utf8 valid_after
blank-IsError = (omega arith, refl, refl, refl, omega arith)

or_default-IsError : (error : Option ErrorInfo) → IsTrailer error → IsError (error_or_default error)
unfolding error_or_default
or_default-IsError none h = blank-IsError
or_default-IsError (some e) h = h

pub trailer-Encodes :
    (status : ℕ) (error : Option ErrorInfo)
    → IsTrailer error
    → Encodes (put_trailer status error) (get_trailer status) (carried_error status error)
unfolding put_trailer get_trailer some_error carried_error
trailer-Encodes status error h = elim (Bool-cases (status == 0)) [
  | inl fine ↦ rw fine (done-Encodes none)
  | inr failed ↦
      rw failed
        (map-Encodes some (error-Encodes (error_or_default error) (or_default-IsError error h)))
]

-- What the wire carries of the database and of the password.
unfoldable pub carried_database : Bool → List ℕ → List ℕ
carried_database true database = database
carried_database false database = []

pub database-Encodes :
    (connects : Bool) (database : List ℕ)
    → IsStr database
    → Encodes
        (put_database connects database)
        (get_database connects)
        (carried_database connects database)
unfolding put_database get_database carried_database
database-Encodes true database h = str_u16-Encodes _ database h
database-Encodes false database h = done-Encodes []

unfoldable pub carried_password : AuthMechanism → List ℕ → List ℕ
carried_password password p = p
carried_password mtls p = []

pub password-Encodes :
    (m : AuthMechanism) (p : List ℕ)
    → IsStr p
    → Encodes (put_password m p) (get_password m) (carried_password m p)
unfolding put_password get_password carried_password
password-Encodes password p h = str_u16-Encodes _ p h
password-Encodes mtls p h = done-Encodes []
