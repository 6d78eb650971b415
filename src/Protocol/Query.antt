-- ===== src/Protocol/Query.antt =====
-- crates/prism-protocol/src/data.rs: `DocQuery`, the filter of a document command.
pub mod Depth
pub mod Leaves
pub mod RoundTrip
use prism_db.Common.{ℕ, zero, suc, ◌+◌, max, Bool, List, [], ◌∷◌, length, if◌then◌else◌, ◌==◌}
use prism_db.Common.Results.{Result, ok, err}
use prism_db.Common.Parsers.{Parser, then_read, ◌>>=◌, return, fail, repeat}
use prism_db.Protocol.Errors.{ProtocolError, truncated, bad_enum}
use prism_db.Protocol.Codec.{
  Writer, ◌⊳◌, done, put_each, put_u8, put_bytes_u16, put_count, put_bool, get_u8, get_u32,
  get_bool, then_end,
}
use prism_db.Protocol.Value.{Value, encode_tagged, decode_tagged}
use prism_db.Protocol.Update.{read_field}

mutual
  pub data DocQuery : Type 0 where
    all : DocQuery
    eq ne gt lt gte lte : (field : List ℕ) (value : Value) → DocQuery
    in_set nin : (field : List ℕ) (set : List Value) → DocQuery
    exists : (field : List ℕ) (want : Bool) → DocQuery
    and or : (subs : DocQueries) → DocQuery
    not : (inner : DocQuery) → DocQuery

  pub data DocQueries : Type 0 where
    none : DocQueries
    sub : DocQuery → DocQueries → DocQueries

unfoldable pub sub_count : DocQueries → ℕ
sub_count none = 0
sub_count (sub q qs) = suc (sub_count qs)

unfoldable pub field_op : ℕ → List ℕ → Value → Writer
field_op tag field v = put_u8 tag ⊳ (put_bytes_u16 "query.field" field ⊳ encode_tagged v)

unfoldable pub field_set : ℕ → List ℕ → List Value → Writer
field_set tag field set =
    put_u8 tag
    ⊳ (put_bytes_u16 "query.field" field
        ⊳ (put_count "query.set" (length set) ⊳ put_each encode_tagged set))

unfoldable pub field_exists : List ℕ → Bool → Writer
field_exists field want = put_u8 9 ⊳ (put_bytes_u16 "query.field" field ⊳ put_bool want)

unfoldable mutual
  pub encode : DocQuery → Writer
  encode all = put_u8 0
  encode (eq f v) = field_op 1 f v
  encode (ne f v) = field_op 2 f v
  encode (gt f v) = field_op 3 f v
  encode (lt f v) = field_op 4 f v
  encode (gte f v) = field_op 5 f v
  encode (lte f v) = field_op 6 f v
  encode (in_set f set) = field_set 7 f set
  encode (nin f set) = field_set 8 f set
  encode (exists f want) = field_exists f want
  encode (and subs) = put_u8 10 ⊳ (put_count "query.group" (sub_count subs) ⊳ encode_each subs)
  encode (or subs) = put_u8 11 ⊳ (put_count "query.group" (sub_count subs) ⊳ encode_each subs)
  encode (not inner) = put_u8 12 ⊳ encode inner

  pub encode_each : DocQueries → Writer
  encode_each none = done
  encode_each (sub q qs) = encode q ⊳ encode_each qs

unfoldable pub to_bytes : DocQuery → Result ProtocolError (List ℕ)
to_bytes q = encode q []

unfoldable pub read_op : (List ℕ → Value → DocQuery) → Parser ProtocolError DocQuery
read_op op = do field ← read_field; value ← decode_tagged; return (op field value)

unfoldable pub decode_set : Parser ProtocolError (List Value)
decode_set = do count ← get_u32 "query.set_count"; repeat count decode_tagged

unfoldable pub read_set : (List ℕ → List Value → DocQuery) → Parser ProtocolError DocQuery
read_set op = do field ← read_field; set ← decode_set; return (op field set)

unfoldable pub read_exists : Parser ProtocolError DocQuery
read_exists = do field ← read_field; want ← get_bool "query.exists"; return (exists field want)

unfoldable pub read_subs : Parser ProtocolError DocQuery → ℕ → Parser ProtocolError DocQueries
read_subs decode zero = return none
read_subs decode (suc n) = do q ← decode; qs ← read_subs decode n; return (sub q qs)

unfoldable pub decode_group : Parser ProtocolError DocQuery → Parser ProtocolError DocQueries
decode_group decode = do count ← get_u32 "query.group_count"; read_subs decode count

-- The rest of a query, by its tag.
unfoldable pub read_tagged : Parser ProtocolError DocQuery → ℕ → Parser ProtocolError DocQuery
read_tagged decode tag =
    if tag == 0
    then return all
    else if tag == 1
    then read_op eq
    else if tag == 2
    then read_op ne
    else if tag == 3
    then read_op gt
    else if tag == 4
    then read_op lt
    else if tag == 5
    then read_op gte
    else if tag == 6
    then read_op lte
    else if tag == 7
    then read_set in_set
    else if tag == 8
    then read_set nin
    else if tag == 9
    then read_exists
    else if tag == 10
    then (do subs ← decode_group decode; return (and subs))
    else if tag == 11
    then (do subs ← decode_group decode; return (or subs))
    else if tag == 12
    then (do inner ← decode; return (not inner))
    else fail (bad_enum "query.tag" tag)

-- Each level takes a byte, so that where the fuel of one more than the bytes ends, none is left, and
-- the error is that of a missing tag.
unfoldable pub decode : ℕ → Parser ProtocolError DocQuery
decode zero = fail (truncated "query.tag")
decode (suc n) = do tag ← get_u8 "query.tag"; read_tagged (decode n) tag

unfoldable pub from_bytes : List ℕ → Result ProtocolError DocQuery
from_bytes bytes = then_end (decode (length bytes + 1) bytes)
