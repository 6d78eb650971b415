-- ===== src/Protocol/Frame/Stream.antt =====
-- crates/prism-protocol/src/frame.rs: frames on a stream of bytes that arrive in pieces.
use prism_db.Common.{
  ℕ, ◌+◌, ◌%◌, ◌^◌, ◌<◌, ◌≤◌, ◌≡◌, ◌∙◌, refl, ap, sym, List, ◌∷◌, ◌++◌, none, some, length, take,
  drop, if◌then◌else◌, ltb, arith, append_assoc, length-append, take-append, drop-append,
  take-drop-append, dec_lt, ltb-false, lt→ltb,
}
use prism_db.Common.Bytes.{IsU32, to_le, from_le, length-to_le, from_le-to_le}
use prism_db.Common.Results.{ok, err}
use prism_db.Protocol.Errors.{frame_too_large}
use prism_db.Protocol.Frame.{max_frame_size, encode, parse}

prefix_bytes : List ℕ → List ℕ
prefix_bytes payload = to_le 4 (length payload % 2 ^ 32)

-- `parse` by the length that the prefix declares.
by_length :
    (buf : List ℕ) (n : ℕ)
    → 4 ≤ length buf
    → from_le (take 4 buf) ≡ n
    → parse buf ≡ (
        if ltb max_frame_size n
        then err (frame_too_large n)
        else if ltb (length buf) (4 + n)
        then ok none
        else ok (some (take n (drop 4 buf), 4 + n)))
unfolding parse
by_length buf n h e = rw (ltb-false (length buf) 4 h, e)

early : (front : List ℕ) → length front < 4 → parse front ≡ ok none
unfolding parse
early front p = rw (lt→ltb (length front) 4 p)

module _ (payload : List ℕ) (fits : IsU32 (length payload)) where
  length-prefix_bytes : length (prefix_bytes payload) ≡ 4
  unfolding prefix_bytes
  length-prefix_bytes = length-to_le 4 _

  declared : (rest : List ℕ) → from_le (take 4 (prefix_bytes payload ++ rest)) ≡ length payload
  unfolding prefix_bytes
  declared rest =
      ap from_le (take-append 4 (prefix_bytes payload) rest length-prefix_bytes)
      ∙ from_le-to_le 4 (length payload % 2 ^ 32) (omega arith)
      ∙ omega arith

  whole : (rest : List ℕ) → length (encode payload ++ rest) ≡ 4 + length payload + length rest
  unfolding encode prefix_bytes
  whole rest = omega (
    arith,
    length-append (encode payload) rest,
    length-append (prefix_bytes payload) payload,
    length-prefix_bytes,
  )

  size : length (encode payload) ≡ 4 + length payload
  unfolding encode prefix_bytes
  size = omega (arith, length-append (prefix_bytes payload) payload, length-prefix_bytes)

  split : (rest : List ℕ) → encode payload ++ rest ≡ prefix_bytes payload ++ (payload ++ rest)
  unfolding encode prefix_bytes
  split rest = append_assoc (prefix_bytes payload) payload rest

  content : (rest : List ℕ) → take (length payload) (drop 4 (encode payload ++ rest)) ≡ payload
  content rest =
      ap (λ buf. take (length payload) (drop 4 buf)) (split rest)
      ∙ ap (take (length payload))
          (drop-append 4 (prefix_bytes payload) (payload ++ rest) length-prefix_bytes)
      ∙ take-append (length payload) payload rest refl

  -- A frame at the front of a buffer is parsed to its payload and its size, whatever follows it, if
  -- the payload is within the limit; a larger one, whose length fits the prefix, is refused.
  pub parse-encode :
      (rest : List ℕ)
      → parse (encode payload ++ rest) ≡ (
          if ltb max_frame_size (length payload)
          then err (frame_too_large (length payload))
          else ok (some (payload, length (encode payload))))
  parse-encode rest =
      by_length (encode payload ++ rest) (length payload) (omega (arith, whole rest))
        (ap (λ buf. from_le (take 4 buf)) (split rest) ∙ declared (payload ++ rest))
      ∙ rw (
        ltb-false (length (encode payload ++ rest)) (4 + length payload)
            (omega (arith, whole rest)),
        content rest,
        size,
      )

  -- While the end of a frame is missing, wherever it is cut, more bytes are asked for and nothing is
  -- consumed, until the four bytes of the length are there: then a frame whose payload is over the
  -- limit is refused, and one within it waits for the rest. The payload's length fits its prefix.
  pub parse_partial :
      (front : List ℕ) (b : ℕ) (back : List ℕ)
      → encode payload ≡ front ++ (b ∷ back)
      → parse front ≡ (
          if ltb (length front) 4
          then ok none
          else if ltb max_frame_size (length payload)
          then err (frame_too_large (length payload))
          else ok none)
  unfolding encode prefix_bytes
  parse_partial front b back e = elim (dec_lt (length front) 4) [
    | yes p ↦ rw (lt→ltb (length front) 4 p) (early front p)
    | no p ↦ rw (ltb-false (length front) 4 (omega arith)) (
        by_length front (length payload) (omega arith) (
          ap from_le (sym (take-drop-append 4 0 front (b ∷ back) (omega arith)))
          ∙ ap (λ buf. from_le (take 4 buf)) (sym e)
          ∙ declared payload)
        ∙ rw
            (lt→ltb (length front) (4 + length payload)
              (omega (arith, ap length e, size, length-append front (b ∷ back))))
            refl)
  ]
