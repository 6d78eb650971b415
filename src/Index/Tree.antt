-- ===== src/Index/Tree.antt =====
-- crates/prism-index/src/btree.rs: the tree's methods, over a store of nodes. Each runs under the
-- tree's lock, from its start to its end. The fuel of a descent counts the nodes that it may read.
use prism_db.Common.{
  ℕ, zero, suc, ◌+◌, ◌-◌, ◌/◌, ◌%◌, ◌^◌, ◌≡◌, ◌≢◌, ◌≤◌, Bool, true, false, not, ◌&&◌, List, [], ◌∷◌,
  ◌++◌, Option, none, some, if◌then◌else◌, leb, length, get_elem?, max, take,
}
use prism_db.Common.Results.{Result, ok, err}
use prism_db.Common.Order.{bytes_lt}
use prism_db.Core.Record.{RecordId}
use prism_db.Index.Node.{
  IndexError, corrupt, expected_leaf, Key, Entry, Leaf, Internal, Node, leaf, internal, route,
  insert_child, position, stands_at, remove_at, split_off, upsert, leaf_get, leaf_size,
  internal_size, IsNode, IsPageId,
}
use prism_db.Index.Outcome.{
  out_of_fuel, failed, M, bind, ◌>>=◌, ◌>>◌, return, or_panic, lift, settle,
}

abbrev pub max_body : ℕ
max_body = 8160

unfoldable pub node_size : Node → ℕ
node_size (leaf l) = leaf_size l
node_size (internal n) = internal_size n

-- The node that a page holds, and the two ways to change it, over the buffer pool. A page that is
-- allocated had no node to be read, and a failed access leaves the other pages' nodes alone.
pub record NodeStore (S : Type 0) : Type 0 where
  pub read_node : S → ℕ → Result IndexError Node
  pub write_page : ℕ → Node → S → S × Result IndexError (Unit {0})
  pub alloc_page : Node → S → S × Result IndexError ℕ
  pub write-read :
      (page : ℕ) (n : Node) (s : S)
      → IsNode n
      → (write_page page n s).1 ≡ ok tt
      → read_node (write_page page n s).0 page ≡ ok n
  pub write_other :
      (page q : ℕ) (n : Node) (s : S)
      → q ≢ page
      → read_node (write_page page n s).0 q ≡ read_node s q
  pub alloc-read :
      (n : Node) (s : S) (page : ℕ)
      → IsNode n
      → (alloc_page n s).1 ≡ ok page
      → read_node (alloc_page n s).0 page ≡ ok n
  pub alloc_fresh :
      (n m : Node) (s : S) (page : ℕ) → (alloc_page n s).1 ≡ ok page → read_node s page ≢ ok m
  pub alloc_id : (n : Node) (s : S) (page : ℕ) → (alloc_page n s).1 ≡ ok page → IsPageId page
  pub alloc_fits :
      (n : Node) (s : S) (page : ℕ) → (alloc_page n s).1 ≡ ok page → node_size n ≤ max_body
  pub alloc_keeps :
      (n m : Node) (s : S) (q : ℕ) → read_node s q ≡ ok m → read_node (alloc_page n s).0 q ≡ ok m

pub record BTree : Type 0 where
  pub root : ℕ
  pub order : ℕ

-- A split gives the separator and the new node to its right.
abbrev pub Split : Type 0
Split = Option (Key × ℕ)

unfoldable pub open_tree : ℕ → ℕ → BTree
open_tree root_page order = record { root = root_page; order = max order 2 }

-- `range`'s loop over a leaf: what it has put out, and whether it has met the end.
unfoldable pub scan_entries : Key → Key → List Entry → List Entry → List Entry × Bool
scan_entries start end [] out = (out, false)
scan_entries start end ((k, rid) ∷ es) out =
    let rest =
      scan_entries start end es (if not (bytes_lt k start) then out ++ (k, rid) ∷ [] else out) in
    if not (bytes_lt k end) then (out, true) else rest

-- The level of a root over this one.
unfoldable pub level_above : Node → ℕ
level_above (leaf l) = 1
level_above (internal n) = (n.level + 1) % 2 ^ 16

module _ {S : Type 0} (store : NodeStore S) where
  abbrev pub read : ℕ → M S Node
  read page s = lift (store.read_node s page) s

  abbrev pub write_node : ℕ → Node → M S (Unit {0})
  write_node page n s = settle (store.write_page page n s)

  abbrev pub alloc_node : Node → M S ℕ
  alloc_node n s = settle (store.alloc_page n s)

  unfoldable pub with_order : ℕ → M S BTree
  with_order order = do
    root ← alloc_node (leaf (record { right_sibling = none; entries = [] }))
    return (record { root = root; order = max order 2 })

  -- `usize::MAX`: only the size of a page splits a node.
  create : M S BTree
  create = with_order (2 ^ 64 - 1)

  -- `search`'s loop, from a page.
  unfoldable pub search_from : ℕ → ℕ → Key → M S (Option RecordId)
  search_from zero page key s = out_of_fuel
  search_from (suc fuel) page key s = elim (store.read_node s page) [
    | err e ↦ failed e s
    | ok (internal n) ↦ bind (or_panic (route n key) s) (λ child. search_from fuel child key)
    | ok (leaf l) ↦ return (leaf_get l key) s
  ]

  -- What `delete` does at the leaf.
  unfoldable pub delete_in_leaf : ℕ → Leaf → Key → M S Bool
  delete_in_leaf page l key =
      let pos = position l.entries key in
      if stands_at l.entries pos key
      then (write_node page (leaf (record l { entries = remove_at pos l.entries })) >> return true)
      else return false

  unfoldable pub delete_from : ℕ → ℕ → Key → M S Bool
  delete_from zero page key s = out_of_fuel
  delete_from (suc fuel) page key s = elim (store.read_node s page) [
    | err e ↦ failed e s
    | ok (internal n) ↦ bind (or_panic (route n key) s) (λ child. delete_from fuel child key)
    | ok (leaf l) ↦ delete_in_leaf page l key s
  ]

  -- The leaf that `range` starts at.
  unfoldable pub leaf_page : ℕ → ℕ → Key → M S ℕ
  leaf_page zero page key s = out_of_fuel
  leaf_page (suc fuel) page key s = elim (store.read_node s page) [
    | err e ↦ failed e s
    | ok (internal n) ↦ bind (or_panic (route n key) s) (λ child. leaf_page fuel child key)
    | ok (leaf l) ↦ return page s
  ]

  -- The leaves from one on, by their siblings.
  unfoldable pub scan_leaves : ℕ → Key → Key → Option ℕ → List Entry → M S (List Entry)
  scan_leaves zero start end cursor out s = out_of_fuel
  scan_leaves (suc fuel) start end none out s = return out s
  scan_leaves (suc fuel) start end (some page) out s = elim (store.read_node s page) [
    | err e ↦ failed e s
    | ok (internal n) ↦ failed (corrupt expected_leaf) s
    | ok (leaf l) ↦
        let (out', stop) = scan_entries start end l.entries out in
        elim stop [
          | true ↦ return out' s
          | false ↦ scan_leaves fuel start end l.right_sibling out' s
        ]
  ]

  module _ (tree : BTree) where
    unfoldable pub range : ℕ → Key → Key → M S (List Entry)
    range fuel start end = do
      page ← leaf_page fuel tree.root start
      scan_leaves fuel start end (some page) []

    unfoldable pub split_leaf : ℕ → Leaf → M S Split
    split_leaf page l = do
      (left_entries, right_entries) ← or_panic (split_off (length l.entries / 2) l.entries)
      first ← or_panic (get_elem? right_entries 0)
      right_page ←
          alloc_node (leaf (record { right_sibling = l.right_sibling; entries = right_entries }))
      write_node page (leaf (record { right_sibling = some right_page; entries = left_entries }))
      return (some (first.0, right_page))

    unfoldable pub insert_leaf : ℕ → Leaf → Key → RecordId → M S Split
    insert_leaf page l key rid =
        let l' : Leaf = record l { entries = upsert l.entries key rid } in
        if leb (length l'.entries) tree.order && leb (leaf_size l') max_body
        then (write_node page (leaf l') >> return none)
        else split_leaf page l'

    unfoldable pub split_internal : ℕ → Internal → M S Split
    split_internal page n = do
      (left_keys, right_keys) ← or_panic (split_off (length n.keys / 2 + 1) n.keys)
      promoted ← or_panic (get_elem? left_keys (length n.keys / 2))
      (left_children, right_children) ← or_panic (split_off (length n.keys / 2 + 1) n.children)
      right_page ← alloc_node (
          internal (record {
            level = n.level;
            right_sibling = n.right_sibling;
            keys = right_keys;
            children = right_children;
          }))
      write_node page (
          internal (record {
            level = n.level;
            right_sibling = some right_page;
            keys = take (length n.keys / 2) left_keys;
            children = left_children;
          }))
      return (some (promoted, right_page))

    -- What is done with a child's split.
    unfoldable pub absorb : ℕ → Internal → Split → M S Split
    absorb page n none = return none
    absorb page n (some (pivot, new_right)) = do
      n' ← or_panic (insert_child n pivot new_right)
      if leb (length n'.keys) tree.order && leb (internal_size n') max_body
          then (write_node page (internal n') >> return none)
          else split_internal page n'

    unfoldable pub insert_into : ℕ → ℕ → Key → RecordId → M S Split
    insert_into zero page key rid s = out_of_fuel
    insert_into (suc fuel) page key rid s = elim (store.read_node s page) [
      | err e ↦ failed e s
      | ok (leaf l) ↦ insert_leaf page l key rid s
      | ok (internal n) ↦
          bind (or_panic (route n key) s)
            (λ child. insert_into fuel child key rid >>= absorb page n)
    ]

    unfoldable pub search : ℕ → Key → M S (Option RecordId)
    search fuel key = search_from fuel tree.root key

    unfoldable pub delete : ℕ → Key → M S Bool
    delete fuel key = delete_from fuel tree.root key

    -- The old root's node moves to a fresh page, and the root page becomes the parent.
    unfoldable pub grow_root : Split → M S (Unit {0})
    unfolding level_above
    grow_root none = return tt
    grow_root (some (pivot, new_right)) = do
      left_node ← read tree.root
      left_page ← alloc_node left_node
      write_node tree.root (
          internal (record {
            level = level_above left_node;
            right_sibling = none;
            keys = pivot ∷ [];
            children = left_page ∷ new_right ∷ [];
          }))

    unfoldable pub insert : ℕ → Key → RecordId → M S (Unit {0})
    insert fuel key rid = insert_into fuel tree.root key rid >>= grow_root
