-- ===== src/Index/Pages.antt =====
-- crates/prism-index/src/btree.rs: `read_node`, `write_node`, `alloc_node` and `log_page`, over the
-- pages behind the buffer pool (crates/prism-buffer) and the log. The pool is taken by its contents:
-- a page that exists is fetched, and a new one is the next in the file.
pub mod Laws
use prism_db.Common.{
  ℕ, ◌+◌, ◌^◌, ◌≡◌, ◌≢◌, ◌≤◌, ◌<◌, refl, Bool, true, if◌then◌else◌, ltb, leb, ◌==◌, arith, le→leb,
  leb→le, leb-false, Bool-cases, inl, inr, ◌∙◌, sym, ap,
}
use prism_db.Common.Results.{Result, ok, err}
use prism_db.Common.Crc.{Crc32}
use prism_db.Wal.Payload.{WalError, full_page_image, system}
use prism_db.Storage.Bytes.{Buffer, slice}
use prism_db.Storage.Page.{set_page_lsn, page_size}
use prism_db.Buffer.Devices.{storage, short_read}
use prism_db.Core.LogDevice.{LogDevice}
use prism_db.Index.Node.{IndexError, buffer, wal, Node, IsNode, IsPageId}
use prism_db.Index.Tree.{NodeStore, node_size, max_body}
use prism_db.Index.Body.{decode_node, put_node}
use prism_db.Index.PageNode.{put_node-fits, decode_node-put_node}

-- Page 0 is the database header; the others are 1 to `last_page`.
pub record Pages (L : LogDevice) : Type 0 where
  pub last_page : ℕ
  pub page : ℕ → Buffer
  pub log : L.State

module _ (crc : Crc32) (L : LogDevice) where
  abbrev P : Type 0
  P = Pages L

  set_page : P → ℕ → Buffer → P
  set_page s id b = record s { page = λ i. if i == id then b else s.page i }

  exists : P → ℕ → Bool
  exists s id = leb id s.last_page

  missing : ℕ → IndexError
  missing id = buffer (storage (short_read id))

  unfoldable pub read_node : P → ℕ → Result IndexError Node
  unfolding exists missing
  read_node s id = if exists s id then decode_node (s.page id) else err (missing id)

  -- The record of a page's image, and the LSN that the page then carries.
  stamp : P → ℕ → Buffer → Result WalError ℕ → P × Result IndexError (Unit {0})
  stamp s id b (err e) = (s, err (wal e))
  stamp s id b (ok lsn) = unfold set_page in (set_page s id (set_page_lsn b lsn), ok tt)

  unfoldable pub log_page : P → ℕ → Buffer → P × Result IndexError (Unit {0})
  unfolding set_page stamp
  log_page s id b =
      let appended = L.append s.log (system (full_page_image id (slice b 0 page_size))) in
      stamp (record (set_page s id b) { log = appended.0 }) id b appended.1

  put_logged : P → ℕ → Result IndexError Buffer → P × Result IndexError (Unit {0})
  put_logged s id (err e) = (s, err e)
  put_logged s id (ok b) = log_page s id b

  unfoldable pub write_node : ℕ → Node → P → P × Result IndexError (Unit {0})
  unfolding exists missing put_logged
  write_node id n s =
      if exists s id then put_logged s id (put_node crc (s.page id) n) else (s, err (missing id))

  -- A new page, all zeros.
  new_page : P → P
  new_page s = record s {
    last_page = s.last_page + 1;
    page = λ i. if i == s.last_page + 1 then (λ _. 0) else s.page i;
  }

  with_id : ℕ → P × Result IndexError (Unit {0}) → P × Result IndexError ℕ
  with_id id (s, err e) = (s, err e)
  with_id id (s, ok _) = (s, ok id)

  unfoldable pub alloc_node : Node → P → P × Result IndexError ℕ
  unfolding put_logged new_page with_id missing
  alloc_node n s =
      let id = s.last_page + 1 in
      if ltb id (2 ^ 64)
      then with_id id (put_logged (new_page s) id (put_node crc (λ _. 0) n))
      else (s, err (missing id))
