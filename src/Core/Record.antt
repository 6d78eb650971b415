-- ===== src/Core/Record.antt =====
-- crates/prism-core/src/record.rs: record ids and the MVCC header that prefixes every record.
pub mod Codec
use prism_db.Common.{
  ℕ, ◌+◌, ◌-◌, ◌%◌, ◌^◌, ◌*◌, bit_and, bit_or, Bool, true, false, List, [], ◌∷◌, ◌++◌, Option, none,
  some, length, take, drop, if◌then◌else◌, ◌==◌, ltb, not, ◌&&◌,
}
use prism_db.Common.Bytes.{to_le, from_le}
use prism_db.Core.CommitLog.{no_txn}

abbrev pub record_header_size : ℕ
record_header_size = 24

abbrev pub flag_has_prev : ℕ
flag_has_prev = 1

pub record RecordId : Type 0 where
  pub page : ℕ
  pub slot : ℕ

abbrev pub nil6 : List ℕ
nil6 = 0xff ∷ 0xff ∷ 0xff ∷ 0xff ∷ 0xff ∷ 0xff ∷ []

-- Comparison of byte arrays.
unfoldable pub same_bytes : List ℕ → List ℕ → Bool
same_bytes [] [] = true
same_bytes [] (y ∷ ys) = false
same_bytes (x ∷ xs) [] = false
same_bytes (x ∷ xs) (y ∷ ys) = x == y && same_bytes xs ys

-- The low 32 bits of the page, then the slot.
unfoldable pub encode6 : Option RecordId → List ℕ
encode6 none = nil6
encode6 (some rid) = to_le 4 (rid.page % 2 ^ 32) ++ to_le 2 rid.slot

unfoldable pub decode6 : List ℕ → Option RecordId
decode6 bytes =
    if same_bytes bytes nil6
    then none
    else some (record { page = from_le (take 4 bytes); slot = from_le (take 2 (drop 4 bytes)) })

pub record RecordHeader : Type 0 where
  pub xmin : ℕ
  pub xmax : ℕ
  pub prev_version : Option RecordId
  pub flags : ℕ

pub new_insert : ℕ → RecordHeader
new_insert xmin = record { xmin = xmin; xmax = no_txn; prev_version = none; flags = 0 }

unfoldable pub is_deleted : RecordHeader → Bool
is_deleted h = not (h.xmax == no_txn)

-- `self.flags & !FLAG_HAS_PREV`, with the flag set again if there is a previous version.
unfoldable pub stored_flags : ℕ → Option RecordId → ℕ
stored_flags flags none = bit_and flags (0xffff - flag_has_prev)
stored_flags flags (some _) = bit_or (bit_and flags (0xffff - flag_has_prev)) flag_has_prev

unfoldable pub encode : RecordHeader → List ℕ
encode h =
    to_le 8 h.xmin
    ++ (to_le 8 h.xmax ++ (encode6 h.prev_version ++ to_le 2 (stored_flags h.flags h.prev_version)))

unfoldable pub decode : List ℕ → Option RecordHeader
decode bytes =
    if ltb (length bytes) record_header_size
    then none
    else some (record {
      xmin = from_le (take 8 (drop 0 bytes));
      xmax = from_le (take 8 (drop 8 bytes));
      prev_version = decode6 (take 6 (drop 16 bytes));
      flags = from_le (take 2 (drop 22 bytes));
    })
