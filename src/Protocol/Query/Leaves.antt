-- ===== src/Protocol/Query/Leaves.antt =====
-- crates/prism-protocol/src/data.rs: the queries that hold no query, encoded and decoded.
use prism_db.Common.{ℕ, suc, ◌≡◌, Bool, true, List, length, All}
use prism_db.Protocol.Utf8.{is_utf8}
use prism_db.Protocol.Codec.{Writer, ◌⊳◌, put_u8, put_bytes_u16, put_count, put_each, put_bool}
use prism_db.Protocol.Encodes.{Encodes, then-Encodes, map-Encodes, put_each-Encodes}
use prism_db.Protocol.Fields.{u8-Encodes, bool-Encodes, count-Encodes, str_u16-Encodes}
use prism_db.Protocol.Value.{Value, encode_tagged, decode_tagged}
use prism_db.Protocol.Value.RoundTrip.{IsValue, tagged-Encodes}
use prism_db.Protocol.Update.{read_field}
use prism_db.Protocol.Query.{
  DocQuery, all, eq, ne, gt, lt, gte, lte, in_set, nin, exists, and, or, not, DocQueries, none, sub,
  sub_count, encode, encode_each, read_op, decode_set, read_set, read_exists, read_subs,
  read_tagged, decode,
}
use prism_db.Protocol.Query.Depth.{depth, depth_each, Grows, Encodes-Grows, u8-Grows, then-Grows}

-- A query whose fields are UTF-8 and whose values are in range.
unfoldable mutual
  pub IsQuery : DocQuery → Type 0
  IsQuery all = Unit {0}
  IsQuery (eq f v) = (is_utf8 f ≡ true) × IsValue v
  IsQuery (ne f v) = (is_utf8 f ≡ true) × IsValue v
  IsQuery (gt f v) = (is_utf8 f ≡ true) × IsValue v
  IsQuery (lt f v) = (is_utf8 f ≡ true) × IsValue v
  IsQuery (gte f v) = (is_utf8 f ≡ true) × IsValue v
  IsQuery (lte f v) = (is_utf8 f ≡ true) × IsValue v
  IsQuery (in_set f vs) = (is_utf8 f ≡ true) × All IsValue vs
  IsQuery (nin f vs) = (is_utf8 f ≡ true) × All IsValue vs
  IsQuery (exists f want) = is_utf8 f ≡ true
  IsQuery (and subs) = AreQueries subs
  IsQuery (or subs) = AreQueries subs
  IsQuery (not inner) = IsQuery inner

  pub AreQueries : DocQueries → Type 0
  AreQueries none = Unit {0}
  AreQueries (sub q qs) = IsQuery q × AreQueries qs

field-Encodes :
    (f : List ℕ) → is_utf8 f ≡ true → Encodes (put_bytes_u16 "query.field" f) read_field f
unfolding read_field
field-Encodes f h = str_u16-Encodes "query.field" f h

pub op-Encodes :
    (op : List ℕ → Value → DocQuery) (f : List ℕ) (v : Value)
    → is_utf8 f ≡ true
    → IsValue v
    → Encodes (put_bytes_u16 "query.field" f ⊳ encode_tagged v) (read_op op) (op f v)
unfolding read_op
op-Encodes op f v h hv =
    then-Encodes _ (field-Encodes f h) (map-Encodes (op f) (tagged-Encodes v hv))

pub set-Encodes :
    (op : List ℕ → List Value → DocQuery) (f : List ℕ) (vs : List Value)
    → is_utf8 f ≡ true
    → All IsValue vs
    → Encodes
        (put_bytes_u16 "query.field" f
          ⊳ (put_count "query.set" (length vs) ⊳ put_each encode_tagged vs))
        (read_set op)
        (op f vs)
unfolding read_set decode_set
set-Encodes op f vs h hv = then-Encodes _ (field-Encodes f h) (
    map-Encodes (op f) (
      then-Encodes _ (count-Encodes _ _ (length vs))
        (put_each-Encodes encode_tagged decode_tagged vs IsValue tagged-Encodes hv)))

pub exists-Encodes :
    (f : List ℕ) (want : Bool)
    → is_utf8 f ≡ true
    → Encodes (put_bytes_u16 "query.field" f ⊳ put_bool want) read_exists (exists f want)
unfolding read_exists
exists-Encodes f want h =
    then-Encodes _ (field-Encodes f h) (map-Encodes (exists f) (bool-Encodes _ want))

-- A query that is read back, and takes a byte at least for each level.
pub record Nested (q : DocQuery) (n : ℕ) : Type 0 where
  pub encodes : Encodes (encode q) (decode n) q
  pub grows : Grows (encode q) (depth q)

pub record NestedEach (qs : DocQueries) (n : ℕ) : Type 0 where
  pub encodes : Encodes (encode_each qs) (read_subs (decode n) (sub_count qs)) qs
  pub grows : Grows (encode_each qs) (depth_each qs)

-- A tag and then what is no query.
pub leaf :
    {w : Writer} (tag n : ℕ) (q : DocQuery)
    → Encodes w (read_tagged (decode n) tag) q
    → (Encodes (put_u8 tag ⊳ w) (decode (suc n)) q) × Grows (put_u8 tag ⊳ w) 1
unfolding decode
leaf {w = w} tag n q h = (
  then-Encodes (read_tagged (decode n)) (u8-Encodes _ tag) h,
  then-Grows (u8-Grows tag) (Encodes-Grows h),
)
