-- ===== src/Index/Body.antt =====
-- crates/prism-index/src/btree.rs: nodes as page bytes.
use prism_db.Common.{
  ℕ, suc, ◌%◌, ◌^◌, List, [], ◌++◌, Option, none, some, if◌then◌else◌, ltb, leb, ◌==◌, ◌&&◌, length,
  foldl,
}
use prism_db.Common.Results.{Result, ok, err}
use prism_db.Common.Bytes.{to_le}
use prism_db.Common.Crc.{Crc32}
use prism_db.Common.Parsers.{Parser, ◌>>=◌, return, repeat}
use prism_db.Storage.Bytes.{Buffer, put, copy, slice}
use prism_db.Storage.Page.{
  PageType, b_tree_leaf, b_tree_internal, to_u8, from_u8, update_checksum, off_page_type,
}
use prism_db.Index.Node.{
  IndexError, corrupt, unexpected_page_type, entry_too_large, Key, Entry, Node, leaf, internal,
}
use prism_db.Index.Tree.{max_body}
use prism_db.Index.Reader

abbrev pub body_start : ℕ
body_start = 32

abbrev pub nil : ℕ
nil = 0

unfoldable pub nil_to_opt : ℕ → Option ℕ
nil_to_opt v = if v == nil then none else some v

unfoldable pub link_u64 : Option ℕ → ℕ
link_u64 none = nil
link_u64 (some page) = page

-- The little-endian write helpers, over the bytes written so far.
unfoldable pub put_u16 : List ℕ → ℕ → List ℕ
put_u16 out v = out ++ to_le 2 v

unfoldable pub put_u32 : List ℕ → ℕ → List ℕ
put_u32 out v = out ++ to_le 4 v

unfoldable pub put_u64 : List ℕ → ℕ → List ℕ
put_u64 out v = out ++ to_le 8 v

-- The bodies of the loops over entries, children and keys.
unfoldable pub put_entry_bytes : List ℕ → Entry → List ℕ
put_entry_bytes out (key, rid) =
    put_u16 (put_u64 (put_u32 out (length key % 2 ^ 32) ++ key) rid.page) rid.slot

unfoldable pub put_key : List ℕ → Key → List ℕ
put_key out key = put_u32 out (length key % 2 ^ 32) ++ key

unfoldable pub encode_body : Node → PageType × List ℕ
encode_body (leaf l) =
    let out = put_u64 [] (link_u64 l.right_sibling) in
    let out = put_u32 out (length l.entries % 2 ^ 32) in
    (b_tree_leaf, foldl put_entry_bytes out l.entries)
encode_body (internal n) =
    let out = put_u16 [] n.level in
    let out = put_u64 out (link_u64 n.right_sibling) in
    let out = put_u32 out (length n.keys % 2 ^ 32) in
    let out = foldl put_u64 out n.children in (b_tree_internal, foldl put_key out n.keys)

unfoldable pub read_entry : Parser IndexError Entry
read_entry = do
  key ← Reader.bytes_u32
  page_id ← Reader.u64
  slot ← Reader.u16
  return (key, record { page = page_id; slot = slot })

unfoldable pub read_leaf : Parser IndexError Node
read_leaf = do
  right_sibling ← Reader.u64
  count ← Reader.u32
  entries ← repeat count read_entry
  return (leaf (record { right_sibling = nil_to_opt right_sibling; entries = entries }))

unfoldable pub read_internal : Parser IndexError Node
read_internal = do
  level ← Reader.u16
  right_sibling ← Reader.u64
  key_count ← Reader.u32
  children ← repeat (suc key_count) Reader.u64
  keys ← repeat key_count Reader.bytes_u32
  return (
      internal (record {
        level = level;
        right_sibling = nil_to_opt right_sibling;
        keys = keys;
        children = children;
      }))

abbrev value_of : {A : Type 0} → Result IndexError (A × List ℕ) → Result IndexError A
value_of (err e) = err e
value_of (ok (a, _)) = ok a

unfoldable pub decode_node : Buffer → Result IndexError Node
decode_node page =
    let body = slice page body_start max_body in
    elim (from_u8 (page off_page_type)) [
      | some b_tree_leaf ↦ value_of (read_leaf body)
      | some b_tree_internal ↦ value_of (read_internal body)
      | _ ↦ err (corrupt (unexpected_page_type (page off_page_type)))
    ]

-- `buf[from..to].fill(0)`
unfoldable pub fill : Buffer → ℕ → ℕ → Buffer
fill b from to = λ i. if leb from i && ltb i to then 0 else b i

unfoldable pub put_node : Crc32 → Buffer → Node → Result IndexError Buffer
put_node crc page node =
    let (page_type, body) = encode_body node in
    if ltb max_body (length body)
    then err entry_too_large
    else let page = fill page 0 8 in
      let page = fill page 10 8192 in
      let page = put page off_page_type (to_u8 page_type) in
      let page = copy page body_start body in ok (update_checksum crc page)
