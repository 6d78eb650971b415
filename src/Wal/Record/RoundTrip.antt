-- ===== src/Wal/Record/RoundTrip.antt =====
-- crates/prism-wal/src/record.rs: `encode_body` with `decode_body`.
use prism_db.Common.{
  ℕ, ◌%◌, ◌^◌, ◌≡◌, refl, ◌∙◌, List, [], ◌∷◌, ◌++◌, length, arith, All, foldl, append_assoc,
  append-nil,
}
use prism_db.Common.Results.{ok}
use prism_db.Common.Bytes.{IsU16, IsU32, IsU64, to_le}
use prism_db.Common.Int.{IsI64, i64_bits}
use prism_db.Common.Parsers.{Reads, repeat}
use prism_db.Wal.Payload.{
  RecordPayload, insert, update, delete, commit, abort, clr, begin_checkpoint, checkpoint_contents,
  end_checkpoint, full_page_image, heap_page,
}
use prism_db.Wal.Fields.{put_u16, put_u32, put_u64, put_i64, push}
use prism_db.Wal.FieldLaws.{
  u8-Reads, u16-Reads, u32-Reads, u64-Reads, i64-Reads, framed, put_bytes_u32-framed,
  bytes_u32-Reads,
}
use prism_db.Wal.Record.{
  put_dirty, put_active, encode_body, read_dirty, read_active, decode_body, payload_reader,
}

abbrev pub IsDirty : ℕ × ℕ → Type 0
IsDirty (page_id, rec_lsn) = IsU64 page_id × IsU64 rec_lsn

abbrev pub IsActive : ℕ × ℕ × ℕ → Type 0
IsActive (txn_id, state, last_lsn) = IsU64 txn_id × IsU64 last_lsn

-- Every field is a value of its Rust type, and no image or table is longer than a `u32` counts.
abbrev pub IsEncodable : RecordPayload → Type 0
IsEncodable (insert p s a) = IsU64 p × IsU16 s × IsU32 (length a)
IsEncodable (update p s b a) = IsU64 p × IsU16 s × IsU32 (length b) × IsU32 (length a)
IsEncodable (delete p s b) = IsU64 p × IsU16 s × IsU32 (length b)
IsEncodable (commit t f) = IsI64 t × IsU32 f
IsEncodable abort = Unit
IsEncodable (clr p s u n) = IsU64 p × IsU16 s × IsU32 (length u) × IsU64 n
IsEncodable (begin_checkpoint c) = IsU64 c
IsEncodable (checkpoint_contents d a) =
    IsU32 (length d) × All IsDirty d × IsU32 (length a) × All IsActive a
IsEncodable (end_checkpoint c) = IsU64 c
IsEncodable (full_page_image p i) = IsU64 p × IsU32 (length i)
IsEncodable (heap_page h p) = IsU64 h × IsU64 p

dirty_table : List (ℕ × ℕ) → List ℕ
dirty_table [] = []
dirty_table ((p, l) ∷ d) = to_le 8 p ++ (to_le 8 l ++ dirty_table d)

active_table : List (ℕ × ℕ × ℕ) → List ℕ
active_table [] = []
active_table ((t, s, l) ∷ a) = to_le 8 t ++ (s ∷ (to_le 8 l ++ active_table a))

foldl-put_dirty : (out : List ℕ) (d : List (ℕ × ℕ)) → foldl put_dirty out d ≡ out ++ dirty_table d
unfolding put_dirty dirty_table put_u64
foldl-put_dirty out [] = rw append-nil
foldl-put_dirty out ((p, l) ∷ d) = foldl-put_dirty (put_dirty out (p, l)) d ∙ simp append_assoc

foldl-put_active :
    (out : List ℕ) (a : List (ℕ × ℕ × ℕ)) → foldl put_active out a ≡ out ++ active_table a
unfolding put_active active_table put_u64 push
foldl-put_active out [] = rw append-nil
foldl-put_active out ((t, s, l) ∷ a) =
    foldl-put_active (put_active out (t, s, l)) a ∙ simp append_assoc

dirty_table-Reads :
    (d : List (ℕ × ℕ)) → All IsDirty d → Reads (repeat (length d) read_dirty) (dirty_table d) d
unfolding repeat read_dirty dirty_table
dirty_table-Reads [] h rest = refl
dirty_table-Reads ((p, l) ∷ d) ((hp, hl), hd) rest =
    simp (append_assoc, u64-Reads p hp, u64-Reads l hl, dirty_table-Reads d hd)

active_table-Reads :
    (a : List (ℕ × ℕ × ℕ))
    → All IsActive a
    → Reads (repeat (length a) read_active) (active_table a) a
unfolding repeat read_active active_table
active_table-Reads [] h rest = refl
active_table-Reads ((t, s, l) ∷ a) ((ht, hl), ha) rest =
    simp (append_assoc, u64-Reads t ht, u8-Reads s, u64-Reads l hl, active_table-Reads a ha)

-- The body alone, its fields one after the other.
body_of : RecordPayload → List ℕ
body_of (insert p s a) = to_le 8 p ++ (to_le 2 s ++ framed a)
body_of (update p s b a) = to_le 8 p ++ (to_le 2 s ++ (framed b ++ framed a))
body_of (delete p s b) = to_le 8 p ++ (to_le 2 s ++ framed b)
body_of (commit t f) = to_le 8 (i64_bits t) ++ to_le 4 f
body_of abort = []
body_of (clr p s u n) = to_le 8 p ++ (to_le 2 s ++ (framed u ++ to_le 8 n))
body_of (begin_checkpoint c) = to_le 8 c
body_of (checkpoint_contents d a) =
    to_le 4 (length d) ++ (dirty_table d ++ (to_le 4 (length a) ++ active_table a))
body_of (end_checkpoint c) = to_le 8 c
body_of (full_page_image p i) = to_le 8 p ++ framed i
body_of (heap_page h p) = to_le 8 h ++ to_le 8 p

small : (v : ℕ) → IsU32 v → v % 2 ^ 32 ≡ v
small v h = omega arith

-- `encode_body` appends the body to what is written already.
encode_body-body_of :
    (p : RecordPayload) (out : List ℕ) → IsEncodable p → (encode_body p out).0 ≡ out ++ body_of p
unfolding encode_body body_of put_u64 put_u32 put_u16 put_i64
encode_body-body_of (insert p s a) out (hp, hs, ha) =
    simp (put_bytes_u32-framed _ a ha, append_assoc)
encode_body-body_of (update p s b a) out (hp, hs, hb, ha) =
    simp (put_bytes_u32-framed _ b hb, put_bytes_u32-framed _ a ha, append_assoc)
encode_body-body_of (delete p s b) out (hp, hs, hb) =
    simp (put_bytes_u32-framed _ b hb, append_assoc)
encode_body-body_of (commit t f) out h = simp append_assoc
encode_body-body_of abort out h = rw append-nil
encode_body-body_of (clr p s u n) out (hp, hs, hu, hn) =
    simp (put_bytes_u32-framed _ u hu, append_assoc)
encode_body-body_of (begin_checkpoint c) out h = refl
encode_body-body_of (checkpoint_contents d a) out (hd, _, ha, _) =
    simp (foldl-put_dirty, foldl-put_active, small (length d) hd, small (length a) ha, append_assoc)
encode_body-body_of (end_checkpoint c) out h = refl
encode_body-body_of (full_page_image p i) out (hp, hi) =
    simp (put_bytes_u32-framed _ i hi, append_assoc)
encode_body-body_of (heap_page h p) out e = simp append_assoc

-- The reader that the discriminator selects takes the body and nothing behind it.
body_of-Reads :
    (p : RecordPayload) → IsEncodable p → Reads (payload_reader (encode_body p []).1) (body_of p) p
unfolding encode_body body_of payload_reader
body_of-Reads (insert p s a) (hp, hs, ha) rest =
    simp (append_assoc, u64-Reads p hp, u16-Reads s hs, bytes_u32-Reads a ha)
body_of-Reads (update p s b a) (hp, hs, hb, ha) rest =
    simp (append_assoc, u64-Reads p hp, u16-Reads s hs, bytes_u32-Reads b hb, bytes_u32-Reads a ha)
body_of-Reads (delete p s b) (hp, hs, hb) rest =
    simp (append_assoc, u64-Reads p hp, u16-Reads s hs, bytes_u32-Reads b hb)
body_of-Reads (commit t f) (ht, hf) rest = simp (append_assoc, i64-Reads t ht, u32-Reads f hf)
body_of-Reads abort h rest = refl
body_of-Reads (clr p s u n) (hp, hs, hu, hn) rest =
    simp (append_assoc, u64-Reads p hp, u16-Reads s hs, bytes_u32-Reads u hu, u64-Reads n hn)
body_of-Reads (begin_checkpoint c) h rest = simp (u64-Reads c h)
body_of-Reads (checkpoint_contents d a) (hd, ds, ha, acts) rest = simp (
  append_assoc,
  u32-Reads (length d) hd,
  dirty_table-Reads d ds,
  u32-Reads (length a) ha,
  active_table-Reads a acts,
)
body_of-Reads (end_checkpoint c) h rest = simp (u64-Reads c h)
body_of-Reads (full_page_image p i) (hp, hi) rest =
    simp (append_assoc, u64-Reads p hp, bytes_u32-Reads i hi)
body_of-Reads (heap_page h p) (hh, hp) rest = simp (append_assoc, u64-Reads h hh, u64-Reads p hp)

decode_body_of_reader :
    (rtype : ℕ) (body rest : List ℕ) (p : RecordPayload)
    → payload_reader rtype body ≡ ok (p, rest)
    → decode_body rtype body ≡ ok p
unfolding decode_body
decode_body_of_reader rtype body rest p h = rw (h, decode_body)

-- Decoding the body that was encoded gives the payload back, for every kind of record whose fields
-- fit their types and whose images and tables have a length that a `u32` counts.
pub decode_body-encode_body :
    (p : RecordPayload)
    → IsEncodable p
    → decode_body (encode_body p []).1 (encode_body p []).0 ≡ ok p
decode_body-encode_body p h = rw (encode_body-body_of p [] h) (
    decode_body_of_reader _ (body_of p) [] p
      (let read = body_of-Reads p h [] in rw append-nil at read))
