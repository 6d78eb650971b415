-- ===== src/Protocol/Update/RoundTrip.antt =====
-- crates/prism-protocol/src/data.rs: document updates, encoded and decoded.
use prism_db.Common.{ℕ, ◌≡◌, List, length, true, All, ap, subst}
use prism_db.Common.Int.{IsI64, i64_bits, i64_of_bits, i64_bits-lt, i64_of_bits-i64_bits}
use prism_db.Common.Results.{ok}
use prism_db.Common.Parsers.{◌>>=◌, return}
use prism_db.Protocol.Utf8.{is_utf8}
use prism_db.Protocol.Codec.{put_u64, get_u64, put_bytes_u16}
use prism_db.Protocol.Encodes.{
  Encodes, then-Encodes, map-Encodes, put_each-Encodes, then_end-Encodes,
}
use prism_db.Protocol.Fields.{u8-Encodes, u64-Encodes, count-Encodes, str_u16_as-Encodes}
use prism_db.Protocol.Value.RoundTrip.{IsValue, tagged-Encodes}
use prism_db.Protocol.Update.{
  DocUpdateOp, set, unset, inc, read_field, put_op, put_ops, to_bytes, read_set, read_unset,
  read_inc, read_tagged_op, read_op, read_ops, from_bytes,
}

-- A mutation whose field is UTF-8 and whose value is in range.
abbrev pub IsUpdateOp : DocUpdateOp → Type 0
IsUpdateOp (set field value) = (is_utf8 field ≡ true) × IsValue value
IsUpdateOp (unset field) = is_utf8 field ≡ true
IsUpdateOp (inc field delta) = (is_utf8 field ≡ true) × IsI64 delta

field-Encodes :
    (field : List ℕ)
    → is_utf8 field ≡ true
    → Encodes (put_bytes_u16 "update.field" field) read_field field
unfolding read_field
field-Encodes field h = str_u16_as-Encodes "query.field" "update.field" field h

op-Encodes : (op : DocUpdateOp) → IsUpdateOp op → Encodes (put_op op) read_op op
unfolding put_op read_op read_tagged_op read_set read_unset read_inc
op-Encodes (set field value) (h, hv) =
    then-Encodes read_tagged_op (u8-Encodes _ 1)
      (then-Encodes _ (field-Encodes field h) (map-Encodes (set field) (tagged-Encodes value hv)))
op-Encodes (unset field) h =
    then-Encodes read_tagged_op (u8-Encodes _ 2) (map-Encodes unset (field-Encodes field h))
op-Encodes (inc field delta) (h, hd) = then-Encodes read_tagged_op (u8-Encodes _ 3) (
    then-Encodes (λ f. get_u64 "update.delta" >>= (λ d. return (inc f (i64_of_bits d))))
      (field-Encodes field h)
      (subst
        (Encodes (put_u64 (i64_bits delta))
          (get_u64 "update.delta" >>= (λ d. return (inc field (i64_of_bits d)))))
        (ap (inc field) (i64_of_bits-i64_bits delta hd))
        (map-Encodes (λ d. inc field (i64_of_bits d))
          (u64-Encodes _ (i64_bits delta) (i64_bits-lt delta)))))

ops-Encodes : (ops : List DocUpdateOp) → All IsUpdateOp ops → Encodes (put_ops ops) read_ops ops
unfolding put_ops read_ops
ops-Encodes ops h =
    then-Encodes _ (count-Encodes _ _ (length ops))
      (put_each-Encodes put_op read_op ops IsUpdateOp op-Encodes h)

-- A document update whose fields are UTF-8, whose values are in range and whose encoding succeeds
-- is read back from its bytes, with the mutations in order.
pub from_bytes-to_bytes :
    (ops : List DocUpdateOp) (bytes : List ℕ)
    → All IsUpdateOp ops
    → to_bytes ops ≡ ok bytes
    → from_bytes bytes ≡ ok ops
unfolding to_bytes from_bytes
from_bytes-to_bytes ops bytes h =
    then_end-Encodes (put_ops ops) read_ops ops bytes (ops-Encodes ops h)
