-- ===== src/Index/Examples.antt =====
-- Trees of a few keys on encoded pages, with a log in memory and the sum of the bytes for a checksum.
use prism_db.Common.{ap, ℕ, ◌+◌, ◌%◌, ◌^◌, ◌≡◌, ◌≤◌, refl, List, [], ◌∷◌, none, arith, foldl}
use prism_db.Common.Bytes.{to_le}
use prism_db.Common.Results.{Result, ok}
use prism_db.Common.Crc.{Crc32}
use prism_db.Core.LogDevice.{LogDevice}
use prism_db.Core.Record.{RecordId}
use prism_db.Wal.Payload.{WalError, LogRecord}
use prism_db.Index.Node.{Key, Entry, Node, leaf}
use prism_db.Index.Outcome.{Ends, done}
use prism_db.Index.Bounds.{IsBounded}
use prism_db.Common.Order.{bytes_lt}
use prism_db.Storage.Bytes.{Buffer}
use prism_db.Index.Entries.{find, put_entry, erase, between}
use prism_db.Index.Tree.{NodeStore, BTree, search, insert, delete, range}
use prism_db.Index.Subtree.{IsTree}
use prism_db.Index.Pages.{Pages, alloc_node, log_page}
use prism_db.Index.Pages.Laws.{page_nodes}
use prism_db.Index.Body.{
  put_node, encode_body, decode_node, put_entry_bytes, put_u16, put_u64, put_u32,
}
use prism_db.Storage.Page.{set_page_lsn}
use prism_db.Index.Tree.{node_size, max_body}
use prism_db.Common.Results.{err}
use prism_db.Index.Refine.{Change, put, remove, apply, run, alloc-IsTree, run-apply}
use prism_db.Index.Search.{is_some, search-find, delete-erase}
use prism_db.Index.Root.{insert-put_entry}
use prism_db.Index.Range.{range-between}
use prism_db.Index.PageNode.{decode_node-put_node}

sum_of_bytes : Crc32
sum_of_bytes = record {
  hash = λ bytes. foldl (λ (a b : ℕ). a + b) 0 bytes % 2 ^ 32;
  hash-IsU32 = λ bytes. omega arith;
}

append_memory : ℕ → LogRecord → ℕ × Result WalError ℕ
append_memory s r = (s + 1, ok (s + 1))

append_memory-last :
    (s s' : ℕ) (r : LogRecord) (lsn : ℕ) → append_memory s r ≡ (s', ok lsn) → s' ≡ lsn
unfolding append_memory
append_memory-last s s' r lsn e = cc e

flush_memory-durable :
    (s s' : ℕ) (up_to : ℕ)
    → up_to ≤ s
    → ◌≡◌ {A = ℕ × Result WalError (Unit {0})} (s, ok tt) (s', ok tt)
    → up_to ≤ s'
flush_memory-durable s s' up_to h e =
    omega (arith, h, ap (λ (r : ℕ × Result WalError (Unit {0})). r.0) e)

abbrev memory_log : LogDevice
memory_log = record {
  State = ℕ;
  append = append_memory;
  flush_through = λ s up_to. (s, ok tt);
  last_lsn = λ s. s;
  durable_lsn = λ s. s;
  append-last = append_memory-last;
  flush-durable = flush_memory-durable;
}

abbrev nodes : NodeStore (Pages memory_log)
nodes = page_nodes sum_of_bytes memory_log

abbrev rid : ℕ → RecordId
rid n = record { page = n; slot = 0 }

abbrev no_pages : Pages memory_log
no_pages = record { last_page = 0; page = λ _ _. 0; log = 0 }

-- Two entries, the most that a node of order 2 takes.
abbrev two_keys : List Entry
two_keys = (b'a' ∷ [], rid 1) ∷ (b'c' ∷ [], rid 3) ∷ []

abbrev start_leaf : Node
start_leaf = leaf (record { right_sibling = none; entries = two_keys })

abbrev tree : BTree
tree = record { root = 1; order = 2 }

abbrev start : Pages memory_log
start = (nodes.alloc_page start_leaf no_pages).0

start_page : (nodes.alloc_page start_leaf no_pages).1 ≡ ok 1
unfolding page_nodes alloc_node put_node encode_body put_entry_bytes put_u16 put_u64 put_u32 to_le
    log_page append_memory
start_page = refl

start-IsTree : IsTree nodes 1 start 0 two_keys
start-IsTree = alloc-IsTree nodes no_pages 1 two_keys (omega arith) sorted start_page
  where
    sorted : IsBounded none none two_keys
    sorted = unfold bytes_lt in (((refl, tt), (tt, tt)), ((tt, tt), ((tt, tt), tt)))

search-find_example : search nodes tree 1 (b'c' ∷ []) start ≡ done (find (b'c' ∷ []) two_keys) start
search-find_example =
    search-find nodes tree 1 0 start two_keys (b'c' ∷ []) start-IsTree (omega arith)

-- The third key splits the leaf, and the tree grows a level.
insert-put_entry_example :
    Ends
      (insert nodes tree 1 (b'b' ∷ []) (rid 2) start)
      (λ _ s'. (h' : ℕ) × (h' ≤ 1) × IsTree nodes 1 s' h' (put_entry (b'b' ∷ []) (rid 2) two_keys))
insert-put_entry_example =
    insert-put_entry nodes tree 1 0 start two_keys (b'b' ∷ []) (rid 2) (omega arith) (omega arith)
      start-IsTree (omega arith)

delete-erase_example : Ends (delete nodes tree 1 (b'a' ∷ []) start) (λ b s'.
    IsTree nodes 1 s' 0 (erase (b'a' ∷ []) two_keys) × (b ≡ is_some (find (b'a' ∷ []) two_keys)))
delete-erase_example =
    delete-erase nodes tree 1 0 start two_keys (b'a' ∷ []) start-IsTree (omega arith)

range-between_example :
    range nodes tree 2 (b'b' ∷ []) (b'd' ∷ []) start
    ≡ done (between (b'b' ∷ []) (b'd' ∷ []) two_keys) start
range-between_example =
    range-between nodes tree 2 0 start two_keys (b'b' ∷ []) (b'd' ∷ []) start-IsTree (omega arith)
      (omega arith)

abbrev three_changes : List Change
three_changes = put (b'b' ∷ []) (rid 2) ∷ remove (b'c' ∷ []) ∷ put (b'a' ∷ []) (rid 4) ∷ []

run-apply_example : Ends (run nodes tree 4 three_changes start) (λ _ s'.
    ((h' : ℕ) × (h' ≤ 3) × IsTree nodes 1 s' h' (apply three_changes two_keys))
    × ((key : Key)
        → search nodes tree 4 key s' ≡ done (find key (apply three_changes two_keys)) s'))
run-apply_example =
    run-apply nodes tree 4 three_changes 0 start two_keys (omega arith) (omega arith) start-IsTree
      (omega arith)

abbrev blank : Buffer
blank = λ _. 0

start_image : Buffer
start_image = elim (put_node sum_of_bytes blank start_leaf) [ err e ↦ blank | ok b ↦ b ]

start_image_lem : put_node sum_of_bytes blank start_leaf ≡ ok start_image
unfolding start_image put_node encode_body put_entry_bytes put_u16 put_u64 put_u32 to_le
start_image_lem = refl

decode_node-put_node_example :
    (decode_node start_image ≡ ok start_leaf)
    × (decode_node (set_page_lsn start_image 77) ≡ ok start_leaf)
    × (node_size start_leaf ≤ max_body)
decode_node-put_node_example =
    decode_node-put_node sum_of_bytes blank start_image start_leaf 77 (omega arith) start_image_lem
