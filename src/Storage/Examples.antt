-- ===== src/Storage/Examples.antt =====
-- A heap page at concrete inputs. The checksum is the sum of the bytes.
use prism_db.Common.{
  ℕ, ◌+◌, ◌%◌, ◌^◌, ◌≡◌, ◌≢◌, refl, List, [], ◌∷◌, none, some, foldl, arith, true,
}
use prism_db.Common.Bytes.{IsU32, to_le, from_le}
use prism_db.Common.Crc.{Crc32}
use prism_db.Storage.Bytes.{Buffer, put, copy, slice, rd_u16, wr_u16}
use prism_db.Storage.Page.{
  heap, slot_count, free_start, free_end, free_space, find_empty, required, init, claim_slot, place,
  insert, delete, record_at, set_page_lsn, update_checksum, verify_checksum,
}
use prism_db.Storage.Page.Insert.{IsValid}
use prism_db.Storage.Page.Records.{insert_lem}
use prism_db.Storage.Page.Delete.{Deletes, delete_lem}
use prism_db.Storage.Page.Checksum.{verify_checksum-update_checksum}
use prism_db.Storage.Page.Init.{init-IsValid}

sum_bytes-IsU32 : (bytes : List ℕ) → IsU32 (foldl ◌+◌ 0 bytes % 2 ^ 32)
sum_bytes-IsU32 bytes = omega arith

abbrev sum_of_bytes : Crc32
sum_of_bytes = record { hash = λ bytes. foldl ◌+◌ 0 bytes % 2 ^ 32; hash-IsU32 = sum_bytes-IsU32 }

abbrev three : List ℕ
three = 1 ∷ 2 ∷ 3 ∷ []

abbrev one_record : Buffer
one_record = (place (init heap) three none).0

inserted_three : insert (init heap) three ≡ some (one_record, 0)
unfolding insert find_empty slot_count free_space free_end free_start required place claim_slot init
    rd_u16 from_le slice wr_u16 copy to_le put
inserted_three = refl

insert_lem_example :
    IsValid one_record
    × (record_at (init heap) 0 ≡ none)
    × (record_at one_record 0 ≡ some three)
    × ((j : ℕ) → j ≢ 0 → record_at one_record j ≡ record_at (init heap) j)
insert_lem_example = insert_lem (init heap) three one_record 0 (init-IsValid heap) inserted_three

delete_lem_example : Deletes one_record 0 (delete one_record 0)
delete_lem_example =
    delete_lem one_record 0
      (insert_lem (init heap) three one_record 0 (init-IsValid heap) inserted_three).0

verify_checksum-update_checksum_example :
    verify_checksum sum_of_bytes (set_page_lsn (update_checksum sum_of_bytes one_record) 77) ≡ true
verify_checksum-update_checksum_example = verify_checksum-update_checksum sum_of_bytes one_record 77
