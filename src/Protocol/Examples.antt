-- ===== src/Protocol/Examples.antt =====
-- Wire values at concrete inputs.
use prism_db.Common.{ℕ, ◌≡◌, refl, true, List, [], ◌∷◌, ◌++◌, none, some, length, arith}
use prism_db.Common.Bytes.{to_le}
use prism_db.Common.Int.{negsuc, i64_bits}
use prism_db.Common.Results.{ok}
use prism_db.Protocol.Utf8.{is_utf8, valid_after, following}
use prism_db.Protocol.Codec.{put_each, put_u8, put_u64, put_bytes_u16, put_count, put_bool}
use prism_db.Protocol.Value.{null, encode_tagged, encode_value, type_tag}
use prism_db.Protocol.Update.{DocUpdateOp, unset, inc, to_bytes, from_bytes, put_op, put_ops}
use prism_db.Protocol.Update.RoundTrip.{from_bytes-to_bytes}
use prism_db.Protocol.Query
use prism_db.Protocol.Query.{DocQuery, exists, sub, sub_count, field_op, field_exists}
use prism_db.Protocol.Query.Leaves.{IsQuery}
use prism_db.Protocol.Query.RoundTrip.{from_bytes-to_bytes_query}
use prism_db.Protocol.Frame.{encode, parse}
use prism_db.Protocol.Frame.Stream.{parse-encode, parse_partial}

-- Two fields, "é" in its two bytes and "n".
abbrev two_ops : List DocUpdateOp
two_ops = unset (195 ∷ 169 ∷ []) ∷ inc (110 ∷ []) (negsuc 0) ∷ []

abbrev two_ops_bytes : List ℕ
two_ops_bytes =
    2 ∷ 0 ∷ 0 ∷ 0 ∷ 2 ∷ 2 ∷ 0 ∷ 195 ∷ 169 ∷ 3 ∷ 1 ∷ 0 ∷ 110 ∷ 255 ∷ 255 ∷ 255 ∷ 255 ∷ 255 ∷ 255
    ∷ 255 ∷ 255 ∷ []

two_ops_encoded : to_bytes two_ops ≡ ok two_ops_bytes
unfolding to_bytes put_ops put_op put_count put_each put_bytes_u16 put_u8 put_u64 to_le i64_bits
two_ops_encoded = refl

e_acute-valid : is_utf8 (195 ∷ 169 ∷ []) ≡ true
unfolding is_utf8 valid_after following
e_acute-valid = refl

n-valid : is_utf8 (110 ∷ []) ≡ true
unfolding is_utf8 valid_after following
n-valid = refl

from_bytes-to_bytes_example : from_bytes two_ops_bytes ≡ ok two_ops
from_bytes-to_bytes_example =
    from_bytes-to_bytes two_ops two_ops_bytes (e_acute-valid, ((n-valid, omega arith), tt))
      two_ops_encoded

-- {n: null} and not {n exists}
abbrev nested_query : DocQuery
nested_query =
    Query.and (sub (Query.eq (110 ∷ []) null) (sub (Query.not (exists (110 ∷ []) true)) Query.none))

abbrev nested_query_bytes : List ℕ
nested_query_bytes = 10 ∷ 2 ∷ 0 ∷ 0 ∷ 0 ∷ 1 ∷ 1 ∷ 0 ∷ 110 ∷ 0 ∷ 12 ∷ 9 ∷ 1 ∷ 0 ∷ 110 ∷ 1 ∷ []

nested_query_encoded : Query.to_bytes nested_query ≡ ok nested_query_bytes
unfolding Query.to_bytes Query.encode field_op field_exists sub_count encode_tagged encode_value
    type_tag put_count put_bytes_u16 put_bool put_u8 to_le
nested_query_encoded = refl

nested_query-IsQuery : IsQuery nested_query
unfolding IsQuery
nested_query-IsQuery = ((n-valid, tt), (n-valid, tt))

from_bytes-to_bytes_query_example : Query.from_bytes nested_query_bytes ≡ ok nested_query
from_bytes-to_bytes_query_example =
    from_bytes-to_bytes_query nested_query nested_query_bytes nested_query-IsQuery
      nested_query_encoded

parse-encode_example :
    parse (encode (7 ∷ 8 ∷ []) ++ (9 ∷ [])) ≡ ok (some (7 ∷ 8 ∷ [], length (encode (7 ∷ 8 ∷ []))))
parse-encode_example = parse-encode (7 ∷ 8 ∷ []) (omega arith) (9 ∷ [])

cut_frame : encode (7 ∷ 8 ∷ []) ≡ (2 ∷ 0 ∷ 0 ∷ 0 ∷ 7 ∷ []) ++ (8 ∷ [])
unfolding encode to_le
cut_frame = refl

parse_partial_example : parse (2 ∷ 0 ∷ 0 ∷ 0 ∷ 7 ∷ []) ≡ ok none
parse_partial_example =
    parse_partial (7 ∷ 8 ∷ []) (omega arith) (2 ∷ 0 ∷ 0 ∷ 0 ∷ 7 ∷ []) 8 [] cut_frame
