-- ===== src/Storage/Page/Checksum.antt =====
-- crates/prism-storage/src/page.rs, checksum.rs: the checksum covers the bytes from 16 on.
use prism_db.Common.{ℕ, ◌^◌, ◌≡◌, ◌∙◌, ap, arith, true, bit_and, ◌%◌, inr}
use prism_db.Common.Bytes.{IsU16, to_le, length-to_le}
use prism_db.Common.Crc.{Crc32}
use prism_db.Storage.Bytes.{
  Buffer, rd_u16, slice-wr_u16, slice-copy-Apart, rd_u16-wr_u16, rd_u16-copy-Apart,
}
use prism_db.Storage.Page.{
  off_checksum, set_page_lsn, page_checksum, update_checksum, verify_checksum,
}

module _ (crc : Crc32) (b : Buffer) where
  checksum-IsU16 : IsU16 (page_checksum crc b)
  unfolding page_checksum
  checksum-IsU16 = omega arith

  stamped : ℕ → Buffer
  stamped lsn = set_page_lsn (update_checksum crc b) lsn

  stamped_field : (lsn : ℕ) → rd_u16 (stamped lsn) off_checksum ≡ page_checksum crc b
  unfolding stamped set_page_lsn update_checksum
  stamped_field lsn =
      rd_u16-copy-Apart _ 0 (to_le 8 lsn) 8 (inr (rw (length-to_le 8 lsn) (omega arith)))
      ∙ rd_u16-wr_u16 b 8 (page_checksum crc b) checksum-IsU16

  stamped_body : (lsn : ℕ) → page_checksum crc (stamped lsn) ≡ page_checksum crc b
  unfolding stamped set_page_lsn update_checksum page_checksum
  stamped_body lsn =
      ap (λ bytes. bit_and (crc.hash bytes) 0xffff % 2 ^ 16)
        (slice-copy-Apart _ 0 (to_le 8 lsn) 16 8176 (inr (rw (length-to_le 8 lsn) (omega arith)))
          ∙ slice-wr_u16 b 8 (page_checksum crc b) 16 8176 (omega arith))

  -- The checksum verifies once it is updated, and still after an LSN is stamped on the page.
  pub verify_checksum-update_checksum :
      (lsn : ℕ) → verify_checksum crc (set_page_lsn (update_checksum crc b) lsn) ≡ true
  unfolding verify_checksum stamped
  verify_checksum-update_checksum lsn = ground (arith, stamped_field lsn, stamped_body lsn)
