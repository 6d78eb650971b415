-- ===== src/Storage/Page/Init.antt =====
-- crates/prism-storage/src/page.rs: an initialised page.
use prism_db.Common.{ℕ, ◌-◌, ◌≡◌, refl, none, some, arith}
use prism_db.Storage.Page.{
  PageType, heap, b_tree_internal, b_tree_leaf, hash_bucket, hash_overflow, free, to_u8, from_u8,
  page_type, slot_count, free_start, free_end, free_space, record_at, init,
}
use prism_db.Common.Bytes.{to_le, from_le}
use prism_db.Storage.Bytes.{put, copy, slice, rd_u16, wr_u16}
use prism_db.Storage.Page.Insert.{IsValid}

page_type-init : (t : PageType) → page_type (init t) ≡ some t
unfolding page_type init from_u8 to_u8 wr_u16 copy to_le put
page_type-init heap = refl
page_type-init b_tree_internal = refl
page_type-init b_tree_leaf = refl
page_type-init hash_bucket = refl
page_type-init hash_overflow = refl
page_type-init free = refl

count-init : (t : PageType) → slot_count (init t) ≡ 0
unfolding slot_count init rd_u16 from_le slice wr_u16 copy to_le put
count-init t = refl

pub init-IsValid : (t : PageType) → IsValid (init t)
unfolding slot_count init free_start free_end rd_u16 from_le slice wr_u16 copy to_le put
init-IsValid t = record {
  slots_end = refl;
  room = omega arith;
  in_page = omega arith;
  live = λ i h. absurd (omega (arith, h));
}

-- An initialised page has its type and is valid; it holds no record, and all but the header is free.
pub init_lem :
    (t : PageType)
    → (page_type (init t) ≡ some t)
      × IsValid (init t)
      × ((id : ℕ) → record_at (init t) id ≡ none)
      × (free_space (init t) ≡ 8192 - 32)
unfolding free_space free_start free_end init record_at rd_u16 from_le slice wr_u16 copy to_le put
init_lem t = (page_type-init t, init-IsValid t, (λ id. ground (arith, count-init t)), refl)
