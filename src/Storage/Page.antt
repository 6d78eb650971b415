-- ===== src/Storage/Page.antt =====
-- crates/prism-storage/src/page.rs, checksum.rs: slotted pages. A header of 32 bytes, slots of four
-- bytes that grow up from it, and records that grow down from the end of the page. Where the source
-- would index past the page it panics, which is left out.
pub mod Place
pub mod Insert
pub mod Records
pub mod Delete
pub mod Checksum
pub mod Init
use prism_db.Common.{
  ℕ, zero, suc, ◌+◌, ◌-◌, ◌*◌, ◌%◌, ◌^◌, bit_and, Bool, true, false, List, [], ◌∷◌, Option, none,
  some, if◌then◌else◌, ◌==◌, leb, ltb, not, ◌&&◌, length,
}
use prism_db.Common.Bytes.{to_le}
use prism_db.Common.Crc.{Crc32}
use prism_db.Storage.Bytes.{Buffer, put, copy, slice, rd_u16, wr_u16, rd_u64}

abbrev pub page_size : ℕ
page_size = 8192

abbrev pub slot_size : ℕ
slot_size = 4

abbrev pub slot_array_start : ℕ
slot_array_start = 32

abbrev pub off_checksum : ℕ
off_checksum = 8

abbrev pub checksum_body_start : ℕ
checksum_body_start = 16

abbrev pub off_page_type : ℕ
off_page_type = 10

abbrev pub off_free_start : ℕ
off_free_start = 14

abbrev pub off_free_end : ℕ
off_free_end = 16

abbrev pub off_slot_count : ℕ
off_slot_count = 18

abbrev pub slot_forward_flag : ℕ
slot_forward_flag = 0x8000

abbrev pub slot_length_mask : ℕ
slot_length_mask = 0x7fff

-- The smaller of the mask and the body of a page with one slot.
abbrev pub max_record_len : ℕ
max_record_len =
    let by_field = slot_length_mask in
    let by_page = page_size - slot_array_start - slot_size in
    if ltb by_field by_page then by_field else by_page

pub data PageType : Type 0 where
  heap b_tree_internal b_tree_leaf hash_bucket hash_overflow free : PageType

unfoldable pub to_u8 : PageType → ℕ
to_u8 heap = 1
to_u8 b_tree_internal = 2
to_u8 b_tree_leaf = 3
to_u8 hash_bucket = 4
to_u8 hash_overflow = 5
to_u8 free = 6

unfoldable pub from_u8 : ℕ → Option PageType
from_u8 v =
    if v == 1
    then some heap
    else if v == 2
    then some b_tree_internal
    else if v == 3
    then some b_tree_leaf
    else if v == 4
    then some hash_bucket
    else if v == 5
    then some hash_overflow
    else if v == 6
    then some free
    else none

unfoldable pub page_lsn : Buffer → ℕ
page_lsn b = rd_u64 b 0

unfoldable pub page_type : Buffer → Option PageType
page_type b = from_u8 (b off_page_type)

unfoldable pub slot_count : Buffer → ℕ
slot_count b = rd_u16 b off_slot_count

unfoldable pub free_start : Buffer → ℕ
free_start b = rd_u16 b off_free_start

unfoldable pub free_end : Buffer → ℕ
free_end b = rd_u16 b off_free_end

abbrev pub slot_base : ℕ → ℕ
slot_base i = slot_array_start + i * slot_size

unfoldable pub slot_offset : Buffer → ℕ → ℕ
slot_offset b i = rd_u16 b (slot_base i)

unfoldable pub slot_length_field : Buffer → ℕ → ℕ
slot_length_field b i = rd_u16 b (slot_base i + 2)

-- The length without the forwarding flag.
unfoldable pub slot_length : Buffer → ℕ → ℕ
slot_length b i = bit_and (slot_length_field b i) slot_length_mask

-- `b.get(off..off + len)`
unfoldable pub range_of : Buffer → ℕ → ℕ → Option (List ℕ)
range_of b off len = if leb (off + len) page_size then some (slice b off len) else none

unfoldable pub record_at : Buffer → ℕ → Option (List ℕ)
record_at b id =
    if leb (slot_count b) id
    then none
    else if slot_offset b id == 0
    then none
    else range_of b (slot_offset b id) (slot_length b id)

unfoldable pub is_forwarding : Buffer → ℕ → Bool
is_forwarding b id =
    ltb id (slot_count b)
    && (not (slot_offset b id == 0)
        && not (bit_and (slot_length_field b id) slot_forward_flag == 0))

unfoldable pub set_slot : Buffer → ℕ → ℕ → ℕ → Buffer
set_slot b i offset length_field =
    wr_u16 (wr_u16 b (slot_base i) offset) (slot_base i + 2) length_field

unfoldable pub init : PageType → Buffer
init t =
    let zeroed : Buffer = λ _. 0 in
    let typed = put zeroed off_page_type (to_u8 t) in
    let started = wr_u16 typed off_free_start slot_array_start in
    let ended = wr_u16 started off_free_end page_size in wr_u16 ended off_slot_count 0

unfoldable pub set_page_lsn : Buffer → ℕ → Buffer
set_page_lsn b lsn = copy b 0 (to_le 8 lsn)

-- A subtraction in `u16`.
unfoldable pub free_space : Buffer → ℕ
free_space b = (2 ^ 16 + free_end b - free_start b) % 2 ^ 16

-- `(0..count).find(|&i| slot_offset(i) == 0)`, with `n` slots left to look at from `i` on.
unfoldable pub find_empty : Buffer → ℕ → ℕ → Option ℕ
find_empty b zero i = none
find_empty b (suc n) i =
    let rest = find_empty b n (i + 1) in if slot_offset b i == 0 then some i else rest

unfoldable pub required : List ℕ → Option ℕ → ℕ
required rec none = length rec + slot_size
required rec (some _) = length rec

-- The slot is appended where none is reused.
unfoldable pub claim_slot : Buffer → ℕ → Option ℕ → Buffer × ℕ
claim_slot b count none =
    let counted = wr_u16 b off_slot_count (count + 1) in
    (wr_u16 counted off_free_start (slot_array_start + (count + 1) * slot_size), count)
claim_slot b count (some i) = (b, i)

-- The writes of `insert`, once the record is known to fit.
unfoldable pub place : Buffer → List ℕ → Option ℕ → Buffer × ℕ
place b rec reuse =
    let new_off = free_end b - length rec in
    let (claimed, slot_id) = claim_slot (copy b new_off rec) (slot_count b) reuse in
    (wr_u16 (set_slot claimed slot_id new_off (length rec)) off_free_end new_off, slot_id)

unfoldable pub insert : Buffer → List ℕ → Option (Buffer × ℕ)
insert b rec =
    let reuse = find_empty b (slot_count b) 0 in
    if ltb max_record_len (length rec)
    then none
    else if ltb (free_space b) (required rec reuse)
    then none
    else some (place b rec reuse)

unfoldable pub delete : Buffer → ℕ → Buffer × Bool
delete b id =
    if leb (slot_count b) id
    then (b, false)
    else if slot_offset b id == 0
    then (b, false)
    else (set_slot b id 0 0, true)

-- The live records with their slots and length fields, copied out first.
unfoldable pub live_from : Buffer → ℕ → ℕ → List (ℕ × ℕ × List ℕ)
live_from b zero i = []
live_from b (suc n) i =
    let rest = live_from b n (i + 1) in
    if slot_offset b i == 0
    then rest
    else (i, slot_length_field b i, slice b (slot_offset b i) (slot_length b i)) ∷ rest

-- Then written back from the end of the page down.
unfoldable pub rewrite_live : Buffer → ℕ → List (ℕ × ℕ × List ℕ) → Buffer × ℕ
rewrite_live b end [] = (b, end)
rewrite_live b end ((i, length_field, bytes) ∷ live) =
    let new_off = end - length bytes in
    rewrite_live (set_slot (copy b new_off bytes) i new_off length_field) new_off live

unfoldable pub compact : Buffer → Buffer
compact b =
    let (rewritten, end) = rewrite_live b page_size (live_from b (slot_count b) 0) in
    wr_u16 rewritten off_free_end end

module _ (crc : Crc32) where
  -- The low 16 bits, as a `u16`.
  unfoldable pub page_checksum : Buffer → ℕ
  page_checksum b =
      bit_and (crc.hash (slice b checksum_body_start (page_size - checksum_body_start))) 0xffff
      % 2 ^ 16

  unfoldable pub update_checksum : Buffer → Buffer
  update_checksum b = wr_u16 b off_checksum (page_checksum b)

  unfoldable pub verify_checksum : Buffer → Bool
  verify_checksum b = rd_u16 b off_checksum == page_checksum b
