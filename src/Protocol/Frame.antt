-- ===== src/Protocol/Frame.antt =====
-- crates/prism-protocol/src/frame.rs: frames with a length prefix.
pub mod Stream
use prism_db.Common.{
  ℕ, ◌+◌, ◌%◌, ◌^◌, List, [], ◌∷◌, ◌++◌, Option, none, some, length, take, drop, if◌then◌else◌, ltb,
}
use prism_db.Common.Bytes.{to_le, from_le}
use prism_db.Common.Results.{Result, ok, err}
use prism_db.Protocol.Errors.{ProtocolError, frame_too_large}

abbrev pub max_frame_size : ℕ
max_frame_size = 67_108_864

abbrev pub length_prefix : ℕ
length_prefix = 4

unfoldable pub encode : List ℕ → List ℕ
encode payload = to_le 4 (length payload % 2 ^ 32) ++ payload

-- `none` where more bytes are needed; else the payload and the bytes consumed.
unfoldable pub parse : List ℕ → Result ProtocolError (Option (List ℕ × ℕ))
parse buf =
    let len = from_le (take 4 buf) in
    if ltb (length buf) length_prefix
    then ok none
    else if ltb max_frame_size len
    then err (frame_too_large len)
    else if ltb (length buf) (length_prefix + len)
    then ok none
    else ok (some (take len (drop length_prefix buf), length_prefix + len))
