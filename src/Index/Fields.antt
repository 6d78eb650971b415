-- ===== src/Index/Fields.antt =====
-- crates/prism-index/src/btree.rs: the fields of a node's body, as written and as read.
use prism_db.Common.{
  ℕ, ◌+◌, ◌*◌, ◌%◌, ◌^◌, ◌≡◌, ◌<◌, refl, ◌∙◌, List, [], ◌∷◌, ◌++◌, length, All, arith, foldl,
  append_assoc, append-nil, length-append, Option, none, some,
}
use prism_db.Common.Bytes.{IsU16, IsU32, IsU64, to_le, length-to_le, from_le-to_le}
use prism_db.Common.Parsers.{Reads, repeat, read_exact-append}
use prism_db.Index.Node.{Key, Entry, IsEntry, entries_size, keys_size, IsLink}
use prism_db.Index.Body.{
  put_u16, put_u32, put_u64, put_entry_bytes, put_key, read_entry, nil_to_opt, link_u64,
}
use prism_db.Index.Reader

take-append : (n : ℕ) (bs : List ℕ) → length bs ≡ n → Reads (Reader.take n) bs bs
unfolding Reader.take
take-append n bs h rest = read_exact-append n _ bs rest h

pub u16-Reads : (v : ℕ) → IsU16 v → Reads Reader.u16 (to_le 2 v) v
unfolding Reader.u16
u16-Reads v h rest = rw (take-append 2 (to_le 2 v) (length-to_le 2 v) rest, from_le-to_le 2 v h)

pub u32-Reads : (v : ℕ) → IsU32 v → Reads Reader.u32 (to_le 4 v) v
unfolding Reader.u32
u32-Reads v h rest = rw (take-append 4 (to_le 4 v) (length-to_le 4 v) rest, from_le-to_le 4 v h)

pub u64-Reads : (v : ℕ) → IsU64 v → Reads Reader.u64 (to_le 8 v) v
unfolding Reader.u64
u64-Reads v h rest = rw (take-append 8 (to_le 8 v) (length-to_le 8 v) rest, from_le-to_le 8 v h)

small_mod : (v : ℕ) → IsU32 v → v % 2 ^ 32 ≡ v
small_mod v h = omega arith

pub nil_to_opt-link_u64 : (link : Option ℕ) → IsLink link → nil_to_opt (link_u64 link) ≡ link
unfolding nil_to_opt link_u64
nil_to_opt-link_u64 none h = refl
nil_to_opt-link_u64 (some p) h = ground arith

pub link_u64-IsU64 : (link : Option ℕ) → IsLink link → IsU64 (link_u64 link)
unfolding link_u64
link_u64-IsU64 none h = omega arith
link_u64-IsU64 (some p) h = h.1

-- The tables of a body, each key with its length before it.
unfoldable pub entry_table : List Entry → List ℕ
entry_table [] = []
entry_table ((k, rid) ∷ es) =
    to_le 4 (length k) ++ (k ++ (to_le 8 rid.page ++ (to_le 2 rid.slot ++ entry_table es)))

unfoldable pub key_table : List Key → List ℕ
key_table [] = []
key_table (k ∷ ks) = to_le 4 (length k) ++ (k ++ key_table ks)

unfoldable pub child_table : List ℕ → List ℕ
child_table [] = []
child_table (c ∷ cs) = to_le 8 c ++ child_table cs

pub foldl-put_entry_bytes :
    (out : List ℕ) (es : List Entry)
    → entries_size es < 2 ^ 32
    → foldl put_entry_bytes out es ≡ out ++ entry_table es
unfolding put_entry_bytes entry_table put_u64 put_u32 put_u16
foldl-put_entry_bytes out [] h = rw append-nil
foldl-put_entry_bytes out ((k, rid) ∷ es) h =
    foldl-put_entry_bytes (put_entry_bytes out (k, rid)) es (omega arith)
    ∙ simp (append_assoc, small_mod (length k) (omega arith))

pub foldl-put_key :
    (out : List ℕ) (ks : List Key)
    → keys_size ks < 2 ^ 32
    → foldl put_key out ks ≡ out ++ key_table ks
unfolding put_key key_table put_u32
foldl-put_key out [] h = rw append-nil
foldl-put_key out (k ∷ ks) h =
    foldl-put_key (put_key out k) ks (omega arith)
    ∙ simp (append_assoc, small_mod (length k) (omega arith))

pub foldl-put_u64 : (out cs : List ℕ) → foldl put_u64 out cs ≡ out ++ child_table cs
unfolding put_u64 child_table
foldl-put_u64 out [] = rw append-nil
foldl-put_u64 out (c ∷ cs) = foldl-put_u64 (put_u64 out c) cs ∙ simp append_assoc

pub length-put_entry_bytes :
    (out : List ℕ) (es : List Entry)
    → length (foldl put_entry_bytes out es) ≡ length out + entries_size es
unfolding put_entry_bytes put_u64 put_u32 put_u16
length-put_entry_bytes out [] = omega arith
length-put_entry_bytes out ((k, rid) ∷ es) = omega (
  arith,
  length-put_entry_bytes (put_entry_bytes out (k, rid)) es,
  length-append (((out ++ to_le 4 (length k % 2 ^ 32)) ++ k) ++ to_le 8 rid.page)
      (to_le 2 rid.slot),
  length-append ((out ++ to_le 4 (length k % 2 ^ 32)) ++ k) (to_le 8 rid.page),
  length-append (out ++ to_le 4 (length k % 2 ^ 32)) k,
  length-append out (to_le 4 (length k % 2 ^ 32)),
  length-to_le 2 rid.slot,
  length-to_le 8 rid.page,
  length-to_le 4 (length k % 2 ^ 32),
)

pub length-put_key :
    (out : List ℕ) (ks : List Key) → length (foldl put_key out ks) ≡ length out + keys_size ks
unfolding put_key put_u32
length-put_key out [] = omega arith
length-put_key out (k ∷ ks) = omega (
  arith,
  length-put_key (put_key out k) ks,
  length-append (out ++ to_le 4 (length k % 2 ^ 32)) k,
  length-append out (to_le 4 (length k % 2 ^ 32)),
  length-to_le 4 (length k % 2 ^ 32),
)

pub length-put_u64 : (out cs : List ℕ) → length (foldl put_u64 out cs) ≡ length out + length cs * 8
unfolding put_u64
length-put_u64 out [] = omega arith
length-put_u64 out (c ∷ cs) =
    omega
      (arith, length-put_u64 (put_u64 out c) cs, length-append out (to_le 8 c), length-to_le 8 c)

pub entry_table-Reads :
    (es : List Entry)
    → All IsEntry es
    → entries_size es < 2 ^ 32
    → Reads (repeat (length es) read_entry) (entry_table es) es
unfolding repeat read_entry entry_table Reader.bytes_u32
entry_table-Reads [] v h rest = refl
entry_table-Reads ((k, rid) ∷ es) (v, vs) h rest = simp (
  append_assoc,
  u32-Reads (length k) (omega arith),
  take-append (length k) k refl,
  u64-Reads rid.page v.0,
  u16-Reads rid.slot v.1,
  entry_table-Reads es vs (omega arith),
)

pub key_table-Reads :
    (ks : List Key)
    → keys_size ks < 2 ^ 32
    → Reads (repeat (length ks) Reader.bytes_u32) (key_table ks) ks
unfolding repeat key_table Reader.bytes_u32
key_table-Reads [] h rest = refl
key_table-Reads (k ∷ ks) h rest = simp (
  append_assoc,
  u32-Reads (length k) (omega arith),
  take-append (length k) k refl,
  key_table-Reads ks (omega arith),
)

pub child_table-Reads :
    (cs : List ℕ) → All IsU64 cs → Reads (repeat (length cs) Reader.u64) (child_table cs) cs
unfolding repeat child_table
child_table-Reads [] v rest = refl
child_table-Reads (c ∷ cs) (v, vs) rest =
    simp (append_assoc, u64-Reads c v, child_table-Reads cs vs)
