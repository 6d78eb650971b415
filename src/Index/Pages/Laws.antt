-- ===== src/Index/Pages/Laws.antt =====
-- crates/prism-index/src/btree.rs: pages of encoded nodes as the store that the tree is over.
use prism_db.Common.{
  ℕ, ◌+◌, ◌^◌, ◌≡◌, ◌≢◌, ◌≤◌, ◌<◌, refl, true, ltb, leb, arith, le→leb, leb→le, leb-false,
  Bool-cases, inl, inr, ◌∙◌, sym, ap,
}
use prism_db.Common.Results.{Result, ok, err}
use prism_db.Common.Crc.{Crc32}
use prism_db.Wal.Payload.{WalError, full_page_image, system}
use prism_db.Storage.Bytes.{Buffer, slice}
use prism_db.Storage.Page.{set_page_lsn, page_size}
use prism_db.Core.LogDevice.{LogDevice}
use prism_db.Index.Node.{IndexError, Node, IsNode, IsPageId}
use prism_db.Index.Tree.{NodeStore, node_size, max_body}
use prism_db.Index.Body.{decode_node, put_node}
use prism_db.Index.PageNode.{put_node-fits, decode_node-put_node}
use prism_db.Index.Pages.{
  Pages, read_node, write_node, alloc_node, stamp, put_logged, new_page, with_id, log_page,
  set_page, exists,
}

module _ (crc : Crc32) (L : LogDevice) where
  abbrev P : Type 0
  P = Pages L

  new_page-last_page : (s : P) → (new_page crc L s).last_page ≡ s.last_page + 1
  unfolding new_page
  new_page-last_page s = refl

  stamp-other :
      (s : P) (id q : ℕ) (b : Buffer) (r : Result WalError ℕ)
      → q ≢ id
      → ((stamp crc L s id b r).0.page q ≡ s.page q)
        × ((stamp crc L s id b r).0.last_page ≡ s.last_page)
  unfolding stamp set_page
  stamp-other s id q b (err e) h = (refl, refl)
  stamp-other s id q b (ok lsn) h = (ground arith, refl)

  stamp-last_page :
      (s : P) (id : ℕ) (b : Buffer) (r : Result WalError ℕ)
      → (stamp crc L s id b r).0.last_page ≡ s.last_page
  unfolding stamp set_page
  stamp-last_page s id b (err e) = refl
  stamp-last_page s id b (ok lsn) = refl

  stamp-ok :
      (s : P) (id : ℕ) (b : Buffer) (r : Result WalError ℕ)
      → (stamp crc L s id b r).1 ≡ ok tt
      → (lsn : ℕ) × ((stamp crc L s id b r).0.page id ≡ set_page_lsn b lsn)
  unfolding stamp set_page
  stamp-ok s id b (err e) h = cc h
  stamp-ok s id b (ok lsn) h = (lsn, ground arith)

  put_logged-other :
      (s : P) (id q : ℕ) (r : Result IndexError Buffer)
      → q ≢ id
      → ((put_logged crc L s id r).0.page q ≡ s.page q)
        × ((put_logged crc L s id r).0.last_page ≡ s.last_page)
  unfolding put_logged log_page set_page
  put_logged-other s id q (err e) h = (refl, refl)
  put_logged-other s id q (ok b) h =
      let appended = L.append s.log (system (full_page_image id (slice b 0 page_size))) in
      let (p, l) =
        stamp-other (record (set_page crc L s id b) { log = appended.0 }) id q b appended.1 h in
      (p ∙ ground arith, l)

  put_logged-last_page :
      (s : P) (id : ℕ) (r : Result IndexError Buffer)
      → (put_logged crc L s id r).0.last_page ≡ s.last_page
  unfolding put_logged log_page set_page
  put_logged-last_page s id (err e) = refl
  put_logged-last_page s id (ok b) =
      let appended = L.append s.log (system (full_page_image id (slice b 0 page_size))) in
      stamp-last_page (record (set_page crc L s id b) { log = appended.0 }) id b appended.1

  -- A node that is put and logged stands on its page.
  put_logged-ok :
      (s : P) (id : ℕ) (page : Buffer) (n : Node) (r : Result IndexError Buffer)
      → put_node crc page n ≡ r
      → (put_logged crc L s id r).1 ≡ ok tt
      → (node_size n ≤ max_body)
        × (IsNode n → decode_node ((put_logged crc L s id r).0.page id) ≡ ok n)
  unfolding put_logged log_page set_page
  put_logged-ok s id page n (err e) p h = cc h
  put_logged-ok s id page n (ok b) p h =
      let appended = L.append s.log (system (full_page_image id (slice b 0 page_size))) in
      let (lsn, e) =
        stamp-ok (record (set_page crc L s id b) { log = appended.0 }) id b appended.1 h in
      (put_node-fits crc page b n p, λ v. rw e (decode_node-put_node crc page b n lsn v p).1)

  with_id-pages : (id : ℕ) (x : P × Result IndexError (Unit {0})) → (with_id crc L id x).0 ≡ x.0
  unfolding with_id
  with_id-pages id (s, err e) = refl
  with_id-pages id (s, ok u) = refl

  with_id-ok :
      (id page : ℕ) (x : P × Result IndexError (Unit {0}))
      → (with_id crc L id x).1 ≡ ok page
      → (x.1 ≡ ok tt) × (page ≡ id)
  unfolding with_id
  with_id-ok id page (s, err e) h = cc h
  with_id-ok id page (s, ok u) h = (refl, cc h)

  read_node_there :
      (s : P) (id : ℕ) → id ≤ s.last_page → read_node crc L s id ≡ decode_node (s.page id)
  unfolding read_node exists
  read_node_there s id h = rw (le→leb id s.last_page h)

  read_node_missing : (s : P) (id : ℕ) (n : Node) → s.last_page < id → read_node crc L s id ≢ ok n
  unfolding read_node exists
  read_node_missing s id n h e = let e' = rw (leb-false id s.last_page h) at e in cc e'

  read_old : (s : P) (q : ℕ) (m : Node) → read_node crc L s q ≡ ok m → q ≤ s.last_page
  unfolding read_node exists
  read_old s q m h = elim (Bool-cases (leb q s.last_page)) [
    | inl here ↦ leb→le q s.last_page here
    | inr out ↦ let h' = rw out at h in cc h'
  ]

  pub pages_write-read :
      (page : ℕ) (n : Node) (s : P)
      → IsNode n
      → (write_node crc L page n s).1 ≡ ok tt
      → read_node crc L (write_node crc L page n s).0 page ≡ ok n
  unfolding write_node exists
  pages_write-read page n s v w = elim (Bool-cases (leb page s.last_page)) [
    | inl here ↦
        let r = put_node crc (s.page page) n in
        let (fits, back) = put_logged-ok s page (s.page page) n r refl (rw here at w) in
        rw here (
          read_node_there (put_logged crc L s page r).0 page
            (omega (arith, put_logged-last_page s page r, leb→le page s.last_page here))
          ∙ back v)
    | inr out ↦ let w' = rw out at w in cc w'
  ]

  pub pages_write_other :
      (page q : ℕ) (n : Node) (s : P)
      → q ≢ page
      → read_node crc L (write_node crc L page n s).0 q ≡ read_node crc L s q
  unfolding write_node read_node exists
  pages_write_other page q n s h = elim (Bool-cases (leb page s.last_page)) [
    | inl here ↦
        let (p, l) = put_logged-other s page q (put_node crc (s.page page) n) h in rw (here, l, p)
    | inr out ↦ rw out
  ]

  -- Where there is room for an id.
  alloc_node_room :
      (n : Node) (s : P)
      → ltb (s.last_page + 1) (2 ^ 64) ≡ true
      → alloc_node crc L n s
        ≡ with_id crc L
            (s.last_page + 1)
            (put_logged crc L (new_page crc L s) (s.last_page + 1) (put_node crc (λ _. 0) n))
  unfolding alloc_node
  alloc_node_room n s room = rw room

  alloc_node_ids :
      (n : Node) (s : P) (page : ℕ)
      → (alloc_node crc L n s).1 ≡ ok page
      → ltb (s.last_page + 1) (2 ^ 64) ≡ true
  unfolding alloc_node
  alloc_node_ids n s page a = elim (Bool-cases (ltb (s.last_page + 1) (2 ^ 64))) [
    | inl room ↦ room
    | inr out ↦ let a' = rw out at a in cc a'
  ]

  -- What a page that is allocated gives.
  alloc_node_lem :
      (n : Node) (s : P) (page : ℕ)
      → (alloc_node crc L n s).1 ≡ ok page
      → (page ≡ s.last_page + 1)
        × (s.last_page + 1 < 2 ^ 64)
        × (node_size n ≤ max_body)
        × (IsNode n → read_node crc L (alloc_node crc L n s).0 page ≡ ok n)
  alloc_node_lem n s page a =
      let room = alloc_node_ids n s page a in
      let id = s.last_page + 1 in
      let r = put_node crc (λ _. 0) n in
      let x = put_logged crc L (new_page crc L s) id r in
      let (done, e) = with_id-ok id page x (rw (alloc_node_room n s room) at a) in
      let (fits, back) = put_logged-ok (new_page crc L s) id (λ _. 0) n r refl done in
      (
        e,
        ground arith,
        fits,
        λ v.
            rw (alloc_node_room n s room, with_id-pages id x, e)
              (read_node_there x.0 id (
                  omega (arith, put_logged-last_page (new_page crc L s) id r, new_page-last_page s))
                ∙ back v),
      )

  new_page-old : (s : P) (q : ℕ) → q ≤ s.last_page → (new_page crc L s).page q ≡ s.page q
  unfolding new_page
  new_page-old s q h = ground arith

  pub pages_alloc_keeps :
      (n m : Node) (s : P) (q : ℕ)
      → read_node crc L s q ≡ ok m
      → read_node crc L (alloc_node crc L n s).0 q ≡ ok m
  pages_alloc_keeps n m s q h = elim (Bool-cases (ltb (s.last_page + 1) (2 ^ 64))) [
    | inl room ↦
        let id = s.last_page + 1 in
        let r = put_node crc (λ _. 0) n in
        let x = put_logged crc L (new_page crc L s) id r in
        let old = read_old s q m h in
        let (p, l) = put_logged-other (new_page crc L s) id q r (omega arith) in
        rw (alloc_node_room n s room, with_id-pages id x)
          (read_node_there x.0 q (omega (arith, l, new_page-last_page s))
            ∙ ap decode_node (p ∙ new_page-old s q old)
            ∙ sym (read_node_there s q old)
            ∙ h)
    | inr out ↦ unfold alloc_node in rw out h
  ]

  pub pages_alloc-read :
      (n : Node) (s : P) (page : ℕ)
      → IsNode n
      → (alloc_node crc L n s).1 ≡ ok page
      → read_node crc L (alloc_node crc L n s).0 page ≡ ok n
  pages_alloc-read n s page v a = (alloc_node_lem n s page a).3 v

  pub pages_alloc_fresh :
      (n m : Node) (s : P) (page : ℕ)
      → (alloc_node crc L n s).1 ≡ ok page
      → read_node crc L s page ≢ ok m
  pages_alloc_fresh n m s page a =
      read_node_missing s page m (omega (arith, (alloc_node_lem n s page a).0))

  pub pages_alloc_id :
      (n : Node) (s : P) (page : ℕ) → (alloc_node crc L n s).1 ≡ ok page → IsPageId page
  pages_alloc_id n s page a =
      let (e, room, fits, back) = alloc_node_lem n s page a in (omega arith, omega arith)

  pub pages_alloc_fits :
      (n : Node) (s : P) (page : ℕ) → (alloc_node crc L n s).1 ≡ ok page → node_size n ≤ max_body
  pages_alloc_fits n s page a = (alloc_node_lem n s page a).2

  -- The nodes behind the pages are what the tree's methods ask for.
  unfoldable pub page_nodes : NodeStore P
  page_nodes = record {
    read_node = read_node crc L;
    write_page = write_node crc L;
    alloc_page = alloc_node crc L;
    write-read = pages_write-read;
    write_other = pages_write_other;
    alloc-read = pages_alloc-read;
    alloc_fresh = pages_alloc_fresh;
    alloc_id = pages_alloc_id;
    alloc_fits = pages_alloc_fits;
    alloc_keeps = pages_alloc_keeps;
  }
