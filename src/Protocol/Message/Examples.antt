-- ===== src/Protocol/Message/Examples.antt =====
-- A packet of two rows at concrete inputs.
use prism_db.Common.{ℕ, ◌≡◌, refl, List, [], ◌∷◌, none, some, true, false, arith}
use prism_db.Common.Bytes.{to_le}
use prism_db.Common.Int.{negsuc, i32_bits}
use prism_db.Common.Results.{ok}
use prism_db.Protocol.Utf8.{is_utf8, valid_after, following}
use prism_db.Protocol.Codec.{
  put_each, put_u8, put_u32, put_u64, put_raw, put_bytes_u16, put_bytes_u32, put_count, put_bool,
}
use prism_db.Protocol.Value.{int32, str, encode_column, encode_value, type_tag}
use prism_db.Protocol.Rows.{
  encode_rows, put_row, put_cells, mark_nulls, bitmap_bytes, set_in, set_bit, test_bit,
}
use prism_db.Protocol.MessageType.{code}
use prism_db.Protocol.Message.{
  sql_result, message_type, encode_body, put_count_u16, put_zeros, put_trailer,
}
use prism_db.Protocol.Message.Bodies.{Packet, write_packet, to_payload, from_payload}
use prism_db.Protocol.Message.RoundTrip.{carried_packet, from_payload-to_payload}

-- A number "n" and a text "s": (NULL, "é") and (-1, NULL).
abbrev two_rows : Packet
two_rows = record {
  request_id = 7;
  message =
      sql_result 0 2
        (record { name = 110 ∷ []; type_tag = 2; nullable = true }
          ∷ record { name = 115 ∷ []; type_tag = 5; nullable = true }
          ∷ [])
        ((none ∷ some (str (195 ∷ 169 ∷ [])) ∷ []) ∷ (some (int32 (negsuc 0)) ∷ none ∷ []) ∷ [])
        false none;
}

abbrev two_rows_bytes : List ℕ
two_rows_bytes =
    33 ∷ 0 ∷ 0 ∷ 0 ∷ 7 ∷ 0 ∷ 0 ∷ 0 ∷ 0 ∷ 0 ∷ 0 ∷ 0 ∷ 0 ∷ 2 ∷ 0 ∷ 0 ∷ 0 ∷ 0 ∷ 0 ∷ 0 ∷ 0 ∷ 2 ∷ 0 ∷ 1
    ∷ 0 ∷ 110 ∷ 2 ∷ 1 ∷ 1 ∷ 0 ∷ 115 ∷ 5 ∷ 1 ∷ 2 ∷ 0 ∷ 0 ∷ 0 ∷ 1 ∷ 2 ∷ 0 ∷ 0 ∷ 0 ∷ 195 ∷ 169 ∷ 2
    ∷ 255 ∷ 255 ∷ 255 ∷ 255 ∷ 0 ∷ []

two_rows_encoded : to_payload two_rows ≡ ok two_rows_bytes
unfolding to_payload write_packet code message_type put_zeros put_u32 encode_body put_u8 put_u64
    put_count_u16 put_each encode_column put_bytes_u16 put_bool put_count encode_rows put_row
    put_raw mark_nulls bitmap_bytes set_in set_bit test_bit put_cells encode_value put_bytes_u32
    i32_bits put_trailer to_le
two_rows_encoded = refl

texts-valid :
    (is_utf8 (110 ∷ []) ≡ true) × (is_utf8 (115 ∷ []) ≡ true) × (is_utf8 (195 ∷ 169 ∷ []) ≡ true)
unfolding is_utf8 valid_after following
texts-valid = (refl, refl, refl)

rows-tags : (type_tag (str (195 ∷ 169 ∷ [])) ≡ 5) × (type_tag (int32 (negsuc 0)) ≡ 2)
unfolding type_tag
rows-tags = (refl, refl)

from_payload-to_payload_example : from_payload two_rows_bytes ≡ ok (carried_packet two_rows)
from_payload-to_payload_example =
    from_payload-to_payload two_rows two_rows_bytes (omega arith)
      (
        omega arith,
        (texts-valid.0, (texts-valid.1, tt)),
        ((rows-tags.0, texts-valid.2, tt), ((rows-tags.1, omega arith, tt), tt)),
        tt,
      )
      two_rows_encoded
