-- ===== src/Index/PageNode.antt =====
-- crates/prism-index/src/btree.rs: `put_node` with `decode_node`.
use prism_db.Common.{
  ℕ, zero, suc, ◌+◌, ◌-◌, ◌≡◌, ◌≤◌, refl, ap, ◌∙◌, List, ◌∷◌, ◌++◌, length, arith, inl, inr, some,
  ltb, Bool-cases,
}
use prism_db.Common.Results.{ok}
use prism_db.Common.Crc.{Crc32}
use prism_db.Common.Bytes.{to_le, length-to_le}
use prism_db.Storage.Bytes.{
  Buffer, put, copy, slice, wr_u16, copy-Apart, slice-copy_self, slice-copy-Apart,
}
use prism_db.Storage.Page.{
  b_tree_leaf, b_tree_internal, to_u8, from_u8, off_page_type, update_checksum, page_checksum,
  set_page_lsn,
}
use prism_db.Index.Node.{Leaf, Internal, Node, leaf, internal, IsNode}
use prism_db.Index.Tree.{max_body, node_size}
use prism_db.Index.Body.{encode_body, decode_node, put_node, fill, body_start}
use prism_db.Index.BodyLaws.{length-encode_body, leaf-Reads, internal-Reads}

slice-append : (b : Buffer) (o n m : ℕ) → slice b o (n + m) ≡ slice b o n ++ slice b (o + n) m
unfolding slice
slice-append b o zero m = rw (zero_add m, o_zero o)
  where
    zero_add : (m : ℕ) → zero + m ≡ m
    zero_add m = omega arith

    o_zero : (o : ℕ) → o + zero ≡ o
    o_zero o = omega arith
slice-append b o (suc n) m =
    rw (suc_add n m, add_suc o n) (ap (◌∷◌ (b o)) (slice-append b (o + 1) n m))
  where
    suc_add : (n m : ℕ) → suc n + m ≡ suc (n + m)
    suc_add n m = omega arith

    add_suc : (o n : ℕ) → o + suc n ≡ o + 1 + n
    add_suc o n = omega arith

-- A page whose type byte and whose body are a node's.
module _ (page : Buffer) (n : Node) (valid : IsNode n) (fits : node_size n ≤ max_body)
    (type_byte : page off_page_type ≡ to_u8 (encode_body n).0)
    (body : slice page body_start (length (encode_body n).1) ≡ (encode_body n).1) where
  slice_body :
      slice page body_start max_body
      ≡ (encode_body n).1
        ++ slice page (body_start + length (encode_body n).1) (max_body - length (encode_body n).1)
  slice_body =
      let len = length (encode_body n).1 in
      let whole : max_body ≡ len + (max_body - len) = omega (arith, length-encode_body n, fits) in
      ap (slice page body_start) whole
      ∙ slice-append page body_start len (max_body - len)
      ∙ ap (λ b. b ++ slice page (body_start + len) (max_body - len)) body

leaf_type : (l : Leaf) → from_u8 (to_u8 (encode_body (leaf l)).0) ≡ some b_tree_leaf
unfolding encode_body to_u8 from_u8
leaf_type l = refl

internal_type : (n : Internal) → from_u8 (to_u8 (encode_body (internal n)).0) ≡ some b_tree_internal
unfolding encode_body to_u8 from_u8
internal_type n = refl

decode_node-written :
    (page : Buffer) (n : Node)
    → IsNode n
    → node_size n ≤ max_body
    → page off_page_type ≡ to_u8 (encode_body n).0
    → slice page body_start (length (encode_body n).1) ≡ (encode_body n).1
    → decode_node page ≡ ok n
unfolding decode_node node_size
decode_node-written page (leaf l) v h t b =
    let rest =
      slice page (body_start + length (encode_body (leaf l)).1)
        (max_body - length (encode_body (leaf l)).1) in
    rw (
      ap from_u8 t ∙ leaf_type l,
      decode_node,
      slice_body page (leaf l) v h t b,
      leaf-Reads l v h rest,
    )
decode_node-written page (internal n) v h t b =
    let rest =
      slice page (body_start + length (encode_body (internal n)).1)
        (max_body - length (encode_body (internal n)).1) in
    rw (
      ap from_u8 t ∙ internal_type n,
      decode_node,
      slice_body page (internal n) v h t b,
      internal-Reads n v h rest,
    )

-- The bytes that tell a node, which neither the checksum nor the LSN stands on.
abbrev ShowsNode : Buffer → Node → Type 0
ShowsNode page n =
    (page off_page_type ≡ to_u8 (encode_body n).0)
    × (slice page body_start (length (encode_body n).1) ≡ (encode_body n).1)

copy-ShowsNode :
    (page : Buffer) (n : Node) (o : ℕ) (xs : List ℕ)
    → o + length xs ≤ off_page_type
    → ShowsNode page n
    → ShowsNode (copy page o xs) n
copy-ShowsNode page n o xs h (t, b) = (
  copy-Apart page o off_page_type xs (inr h) ∙ t,
  slice-copy-Apart page o xs body_start (length (encode_body n).1) (inr (omega arith)) ∙ b,
)

written_page : Buffer → Node → Buffer
written_page page n =
    copy (put (fill (fill page 0 8) 10 8192) off_page_type (to_u8 (encode_body n).0)) body_start
      (encode_body n).1

written_page-ShowsNode : (page : Buffer) (n : Node) → ShowsNode (written_page page n) n
unfolding written_page
written_page-ShowsNode page n =
    let typed = put (fill (fill page 0 8) 10 8192) off_page_type (to_u8 (encode_body n).0) in
    (
      copy-Apart typed body_start off_page_type (encode_body n).1 (inl (omega arith))
          ∙ put_self (fill (fill page 0 8) 10 8192) (to_u8 (encode_body n).0),
      slice-copy_self typed body_start (encode_body n).1,
    )
  where
    put_self : (b : Buffer) (x : ℕ) → put b off_page_type x off_page_type ≡ x
    put_self b x = unfold put in refl

put_node-written :
    (crc : Crc32) (page b : Buffer) (n : Node)
    → put_node crc page n ≡ ok b
    → (b ≡ update_checksum crc (written_page page n)) × (node_size n ≤ max_body)
unfolding put_node written_page
put_node-written crc page b n e = elim (Bool-cases (ltb max_body (length (encode_body n).1))) [
  | inl big ↦ let e' = rw big at e in cc e'
  | inr small ↦ let e' = rw small at e in (cc e', ground (arith, length-encode_body n))
]

pub put_node-fits :
    (crc : Crc32) (page b : Buffer) (n : Node) → put_node crc page n ≡ ok b → node_size n ≤ max_body
put_node-fits crc page b n e = (put_node-written crc page b n e).1

-- What `put_node` writes on a page is decoded as the node, whatever LSN the page is stamped with
-- later, and its body is no longer than a page has room for.
pub decode_node-put_node :
    (crc : Crc32) (page b : Buffer) (n : Node) (lsn : ℕ)
    → IsNode n
    → put_node crc page n ≡ ok b
    → (decode_node b ≡ ok n) × (decode_node (set_page_lsn b lsn) ≡ ok n) × (node_size n ≤ max_body)
unfolding update_checksum set_page_lsn wr_u16
decode_node-put_node crc page b n lsn v e =
    let (w, fits) = put_node-written crc page b n e in
    let sum = to_le 2 (page_checksum crc (written_page page n)) in
    let shows : ShowsNode b n = rw w (
      copy-ShowsNode (written_page page n) n 8 sum
        (omega (arith, length-to_le 2 (page_checksum crc (written_page page n))))
        (written_page-ShowsNode page n)) in
    let stamped = copy-ShowsNode b n 0 (to_le 8 lsn) (omega (arith, length-to_le 8 lsn)) shows in
    (
      decode_node-written b n v fits shows.0 shows.1,
      decode_node-written (set_page_lsn b lsn) n v fits stamped.0 stamped.1,
      fits,
    )
