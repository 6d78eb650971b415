-- ===== src/Protocol/Codec.antt =====
-- crates/prism-protocol/src/codec.rs: `Writer`, as a function from the bytes written so far, and
-- `Reader`, whose state is the slice `buf[pos..]`.
use Prim.Native.String.{String}
use prism_db.Common.{
  ℕ, ◌^◌, Bool, true, false, List, [], ◌∷◌, ◌++◌, length, if◌then◌else◌, ltb, ◌==◌,
}
use prism_db.Common.Results.{Result, ok, err, and_then}
use prism_db.Common.Bytes.{to_le, from_le}
use prism_db.Common.Parsers.{Parser, ◌>>=◌, return, fail, read_exact}
use prism_db.Protocol.Errors.{ProtocolError, truncated, bad_utf8, value_too_large, trailing_bytes}
use prism_db.Protocol.Utf8.{is_utf8}

abbrev pub Writer : Type 0
Writer = List ℕ → Result ProtocolError (List ℕ)

-- One write and then another, with `?` between them.
infixr 5 ◌⊳◌
abbrev pub ◌⊳◌ : Writer → Writer → Writer
(first ⊳ next) out = and_then (first out) next

abbrev pub done : Writer
done out = ok out

-- `for x in xs { put(x)?; }`
unfoldable pub put_each {ℓ} : {A : Type ℓ} → (A → Writer) → List A → Writer
put_each put [] = done
put_each put (x ∷ xs) = put x ⊳ put_each put xs

unfoldable pub put_u8 : ℕ → Writer
put_u8 v out = ok (out ++ (v ∷ []))

unfoldable pub put_u16 : ℕ → Writer
put_u16 v out = ok (out ++ to_le 2 v)

unfoldable pub put_u32 : ℕ → Writer
put_u32 v out = ok (out ++ to_le 4 v)

unfoldable pub put_u64 : ℕ → Writer
put_u64 v out = ok (out ++ to_le 8 v)

unfoldable pub put_raw : List ℕ → Writer
put_raw bytes out = ok (out ++ bytes)

unfoldable pub put_bytes_u16 : String → List ℕ → Writer
put_bytes_u16 field bytes out =
    if ltb (length bytes) (2 ^ 16)
    then ok (out ++ (to_le 2 (length bytes) ++ bytes))
    else err (value_too_large field)

unfoldable pub put_bytes_u32 : String → List ℕ → Writer
put_bytes_u32 field bytes out =
    if ltb (length bytes) (2 ^ 32)
    then ok (out ++ (to_le 4 (length bytes) ++ bytes))
    else err (value_too_large field)

-- The length of a sequence in a `u32`, or the error.
unfoldable pub put_count : String → ℕ → Writer
put_count field n out =
    if ltb n (2 ^ 32) then ok (out ++ to_le 4 n) else err (value_too_large field)

unfoldable pub put_bool : Bool → Writer
put_bool true = put_u8 1
put_bool false = put_u8 0

unfoldable pub take : String → ℕ → Parser ProtocolError (List ℕ)
take needed n = read_exact n (truncated needed)

unfoldable pub get_u8 : String → Parser ProtocolError ℕ
get_u8 needed = do b ← take needed 1; return (from_le b)

unfoldable pub get_u16 : String → Parser ProtocolError ℕ
get_u16 needed = do b ← take needed 2; return (from_le b)

unfoldable pub get_u32 : String → Parser ProtocolError ℕ
get_u32 needed = do b ← take needed 4; return (from_le b)

unfoldable pub get_u64 : String → Parser ProtocolError ℕ
get_u64 needed = do b ← take needed 8; return (from_le b)

-- `get_u8(..)? != 0`
unfoldable pub get_bool : String → Parser ProtocolError Bool
get_bool needed = do b ← get_u8 needed; return (if b == 0 then false else true)

unfoldable pub get_bytes_u16 : String → Parser ProtocolError (List ℕ)
get_bytes_u16 needed = do len ← get_u16 needed; take needed len

unfoldable pub get_bytes_u32 : String → Parser ProtocolError (List ℕ)
get_bytes_u32 needed = do len ← get_u32 needed; take needed len

unfoldable pub checked_utf8 : String → List ℕ → Parser ProtocolError (List ℕ)
checked_utf8 field bytes = if is_utf8 bytes then return bytes else fail (bad_utf8 field)

unfoldable pub get_str_u16 : String → Parser ProtocolError (List ℕ)
get_str_u16 field = do bytes ← get_bytes_u16 field; checked_utf8 field bytes

unfoldable pub get_str_u32 : String → Parser ProtocolError (List ℕ)
get_str_u32 field = do bytes ← get_bytes_u32 field; checked_utf8 field bytes

-- `expect_end`, at the end of a decoder.
unfoldable pub then_end {ℓ} :
    {A : Type ℓ} → Result ProtocolError (A × List ℕ) → Result ProtocolError A
then_end (ok (a, [])) = ok a
then_end (ok (a, b ∷ rest)) = err (trailing_bytes (length (b ∷ rest)))
then_end (err e) = err e
