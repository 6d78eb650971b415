-- ===== src/Index/Node.antt =====
-- crates/prism-index/src/error.rs and src/btree.rs: the nodes of the B+tree and what is done to one
-- node in memory. A page id is its number, a key its bytes.
use prism_db.Common.{
  ℕ, zero, suc, ◌+◌, ◌*◌, Bool, false, not, List, [], ◌∷◌, Option, none, some, if◌then◌else◌, leb,
  length, get_elem?, take, drop, All, ◌<◌, ◌≡◌,
}
use prism_db.Common.Bytes.{IsU16, IsU64}
use prism_db.Common.Order.{bytes_lt, bytes_eq}
use prism_db.Buffer.Devices.{BufferError}
use prism_db.Wal.Payload.{WalError}
use prism_db.Core.Record.{RecordId}

-- What a corrupt page's message says.
pub data Corruption : Type 0 where
  node_truncated : Corruption
  unexpected_page_type : ℕ → Corruption
  expected_leaf : Corruption

pub data IndexError : Type 0 where
  buffer : BufferError → IndexError
  wal : WalError → IndexError
  corrupt : Corruption → IndexError
  entry_too_large : IndexError

abbrev pub Key : Type 0
Key = List ℕ

abbrev pub Entry : Type 0
Entry = Key × RecordId

pub record Leaf : Type 0 where
  pub right_sibling : Option ℕ
  pub entries : List Entry

pub record Internal : Type 0 where
  pub level : ℕ
  pub right_sibling : Option ℕ
  pub keys : List Key
  pub children : List ℕ

pub data Node : Type 0 where
  leaf : Leaf → Node
  internal : Internal → Node

-- The slice methods that are used. On a partitioned slice `partition_point` is the number of the
-- elements at its front that pass; `split_off` panics past the end, which is `none`.
module _ {A : Type 0} where
  abbrev pub partition_point : (A → Bool) → List A → ℕ
  partition_point p [] = 0
  partition_point p (x ∷ xs) = if p x then suc (partition_point p xs) else 0

  abbrev pub insert_at : ℕ → A → List A → List A
  insert_at zero v xs = v ∷ xs
  insert_at (suc n) v [] = v ∷ []
  insert_at (suc n) v (x ∷ xs) = x ∷ insert_at n v xs

  abbrev pub remove_at : ℕ → List A → List A
  remove_at i [] = []
  remove_at zero (x ∷ xs) = xs
  remove_at (suc i) (x ∷ xs) = x ∷ remove_at i xs

  abbrev pub split_off : ℕ → List A → Option (List A × List A)
  split_off n xs = if leb n (length xs) then some (take n xs, drop n xs) else none

-- The child to descend into; `none` where the index is out of range and the source panics.
unfoldable pub route : Internal → Key → Option ℕ
route n key = get_elem? n.children (partition_point (λ k. not (bytes_lt key k)) n.keys)

-- `Vec::insert` panics past the end: `none`.
unfoldable pub insert_child : Internal → Key → ℕ → Option Internal
insert_child n pivot new_right =
    let pos = partition_point (λ k. bytes_lt k pivot) n.keys in
    if leb (pos + 1) (length n.children)
    then some (record n {
      keys = insert_at pos pivot n.keys;
      children = insert_at (pos + 1) new_right n.children;
    })
    else none

-- The place of a key among sorted entries, and the test that it is there.
unfoldable pub position : List Entry → Key → ℕ
position entries key = partition_point (λ (e : Entry). bytes_lt e.0 key) entries

unfoldable pub stands_at : List Entry → ℕ → Key → Bool
stands_at entries pos key = elim (get_elem? entries pos) [
  | none ↦ false
  | some e ↦ bytes_eq e.0 key
]

unfoldable pub set_rid : List Entry → ℕ → RecordId → List Entry
set_rid [] i rid = []
set_rid ((k, r) ∷ es) zero rid = (k, rid) ∷ es
set_rid (e ∷ es) (suc i) rid = e ∷ set_rid es i rid

unfoldable pub upsert : List Entry → Key → RecordId → List Entry
unfolding position stands_at set_rid
upsert entries key rid =
    let pos = position entries key in
    if stands_at entries pos key then set_rid entries pos rid else insert_at pos (key, rid) entries

unfoldable pub leaf_get : Leaf → Key → Option RecordId
unfolding position
leaf_get l key = elim (get_elem? l.entries (position l.entries key)) [
  | none ↦ none
  | some e ↦ if bytes_eq e.0 key then some e.1 else none
]

abbrev pub entries_size : List Entry → ℕ
entries_size [] = 0
entries_size ((k, _) ∷ es) = 4 + length k + 10 + entries_size es

abbrev pub keys_size : List Key → ℕ
keys_size [] = 0
keys_size (k ∷ ks) = 4 + length k + keys_size ks

unfoldable pub leaf_size : Leaf → ℕ
leaf_size l = 8 + 4 + entries_size l.entries

unfoldable pub internal_size : Internal → ℕ
internal_size n = 2 + 8 + 4 + length n.children * 8 + keys_size n.keys

-- The ranges of what a node holds; page 0 is the database header and no node.
abbrev pub IsPageId : ℕ → Type 0
IsPageId page = (0 < page) × IsU64 page

abbrev pub IsLink : Option ℕ → Type 0
IsLink none = Unit {0}
IsLink (some page) = IsPageId page

abbrev pub IsEntry : Entry → Type 0
IsEntry (_, rid) = IsU64 rid.page × IsU16 rid.slot

abbrev pub IsNode : Node → Type 0
IsNode (leaf l) = IsLink l.right_sibling × All IsEntry l.entries
IsNode (internal n) =
    IsU16 n.level
    × IsLink n.right_sibling
    × All IsU64 n.children
    × (length n.children ≡ length n.keys + 1)
