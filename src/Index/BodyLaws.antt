-- ===== src/Index/BodyLaws.antt =====
-- crates/prism-index/src/btree.rs: `encode_body` with the readers of the two kinds of node.
use prism_db.Common.{
  ℕ, suc, ◌%◌, ◌^◌, ◌≡◌, ◌≤◌, ◌<◌, ap, ◌∙◌, List, [], ◌∷◌, ◌++◌, length, All, arith, append_assoc,
  length-append, foldl,
}
use prism_db.Common.Bytes.{IsU64, to_le, length-to_le}
use prism_db.Common.Parsers.{Reads, repeat}
use prism_db.Index.Node.{
  Entry, Key, Leaf, Internal, Node, leaf, internal, IsNode, entries_size, keys_size, leaf_size,
  internal_size,
}
use prism_db.Index.Tree.{max_body, node_size}
use prism_db.Index.Body.{encode_body, put_u16, put_u32, put_u64, read_leaf, read_internal, link_u64}
use prism_db.Index.Fields.{
  u16-Reads, u32-Reads, u64-Reads, nil_to_opt-link_u64, link_u64-IsU64, entry_table, key_table,
  child_table, foldl-put_entry_bytes, foldl-put_key, foldl-put_u64, length-put_entry_bytes,
  length-put_key, length-put_u64, entry_table-Reads, key_table-Reads, child_table-Reads,
}
use prism_db.Index.Reader

-- The bytes of a body are as many as `leaf_size` and `internal_size` say.
pub length-encode_body : (n : Node) → length (encode_body n).1 ≡ node_size n
unfolding encode_body node_size leaf_size internal_size put_u16 put_u32 put_u64
length-encode_body (leaf l) = omega (
  arith,
  length-put_entry_bytes (to_le 8 (link_u64 l.right_sibling) ++ to_le 4 (length l.entries % 2 ^ 32))
      l.entries,
  length-append (to_le 8 (link_u64 l.right_sibling)) (to_le 4 (length l.entries % 2 ^ 32)),
  length-to_le 8 (link_u64 l.right_sibling),
  length-to_le 4 (length l.entries % 2 ^ 32),
)
length-encode_body (internal n) =
    let head =
      (to_le 2 n.level ++ to_le 8 (link_u64 n.right_sibling)) ++ to_le 4 (length n.keys % 2 ^ 32) in
    omega (
      arith,
      length-put_key (foldl put_u64 head n.children) n.keys,
      length-put_u64 head n.children,
      length-append (to_le 2 n.level ++ to_le 8 (link_u64 n.right_sibling))
          (to_le 4 (length n.keys % 2 ^ 32)),
      length-append (to_le 2 n.level) (to_le 8 (link_u64 n.right_sibling)),
      length-to_le 2 n.level,
      length-to_le 8 (link_u64 n.right_sibling),
      length-to_le 4 (length n.keys % 2 ^ 32),
    )

length-entries_size : (es : List Entry) → length es ≤ entries_size es
length-entries_size [] = omega arith
length-entries_size ((k, r) ∷ es) = omega (arith, length-entries_size es)

length-keys_size : (ks : List Key) → length ks ≤ keys_size ks
length-keys_size [] = omega arith
length-keys_size (k ∷ ks) = omega (arith, length-keys_size ks)

small_mod : (v : ℕ) → v < 2 ^ 32 → v % 2 ^ 32 ≡ v
small_mod v h = omega arith

leaf_body :
    (l : Leaf)
    → leaf_size l ≤ max_body
    → (encode_body (leaf l)).1
      ≡ to_le 8 (link_u64 l.right_sibling) ++ (to_le 4 (length l.entries) ++ entry_table l.entries)
unfolding encode_body leaf_size put_u64 put_u32
leaf_body l h =
    foldl-put_entry_bytes
      (to_le 8 (link_u64 l.right_sibling) ++ to_le 4 (length l.entries % 2 ^ 32)) l.entries
      (omega arith)
    ∙ simp
        (append_assoc, small_mod (length l.entries) (omega (arith, length-entries_size l.entries)))

pub leaf-Reads :
    (l : Leaf)
    → IsNode (leaf l)
    → leaf_size l ≤ max_body
    → Reads read_leaf (encode_body (leaf l)).1 (leaf l)
unfolding read_leaf leaf_size
leaf-Reads l (link, v) h rest = rw (leaf_body l h) (
    simp (
      append_assoc,
      u64-Reads (link_u64 l.right_sibling) (link_u64-IsU64 l.right_sibling link),
      u32-Reads (length l.entries) (omega (arith, length-entries_size l.entries)),
      entry_table-Reads l.entries v (omega arith),
      nil_to_opt-link_u64 l.right_sibling link,
    ))

internal_body :
    (n : Internal)
    → internal_size n ≤ max_body
    → (encode_body (internal n)).1
      ≡ to_le 2 n.level
        ++ (to_le 8 (link_u64 n.right_sibling)
            ++ (to_le 4 (length n.keys) ++ (child_table n.children ++ key_table n.keys)))
unfolding encode_body internal_size put_u64 put_u32 put_u16
internal_body n h =
    let head =
      (to_le 2 n.level ++ to_le 8 (link_u64 n.right_sibling)) ++ to_le 4 (length n.keys % 2 ^ 32) in
    foldl-put_key (foldl put_u64 head n.children) n.keys (omega arith)
    ∙ ap (λ b. b ++ key_table n.keys) (foldl-put_u64 head n.children)
    ∙ simp (append_assoc, small_mod (length n.keys) (omega (arith, length-keys_size n.keys)))

pub internal-Reads :
    (n : Internal)
    → IsNode (internal n)
    → internal_size n ≤ max_body
    → Reads read_internal (encode_body (internal n)).1 (internal n)
unfolding read_internal internal_size
internal-Reads n (level, link, v, count) h rest =
    let children : suc (length n.keys) ≡ length n.children = omega arith in
    rw (internal_body n h) (
      simp (
        append_assoc,
        u16-Reads n.level level,
        u64-Reads (link_u64 n.right_sibling) (link_u64-IsU64 n.right_sibling link),
        u32-Reads (length n.keys) (omega (arith, length-keys_size n.keys)),
        repeat_children n.keys n.children children v,
        key_table-Reads n.keys (omega arith),
        nil_to_opt-link_u64 n.right_sibling link,
      ))
  where
    repeat_children :
        (ks : List Key) (cs : List ℕ)
        → suc (length ks) ≡ length cs
        → All IsU64 cs
        → Reads (repeat (suc (length ks)) Reader.u64) (child_table cs) cs
    repeat_children ks cs e v rest = rw e (child_table-Reads cs v rest)
