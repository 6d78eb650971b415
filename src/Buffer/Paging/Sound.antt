-- ===== src/Buffer/Paging/Sound.antt =====
-- crates/prism-buffer/src/pool.rs: the pages that a pool holds, whether in a frame or on disk, and
-- the invariant of its directory and frames.
use prism_db.Common.{ℕ, ◌≡◌, ◌≢◌, refl, ap, sym, true, false, none, some}
use prism_db.Common.Results.{Result, ok, err}
use prism_db.Common.Maps.{lookup, contains}
use prism_db.Wal.Payload.{WalError}
use prism_db.Storage.Bytes.{Buffer}
use prism_db.Core.LogDevice.{LogDevice}
use prism_db.Buffer.Devices.{StorageError, BufferError, DiskDevice}
use prism_db.Buffer.Paging.{Pool, wrote_page, write_after_log, write_out}

module _ (L : LogDevice) (D : DiskDevice) where
  -- What a reader of a page gets.
  unfoldable pub view : Pool L D → ℕ → Buffer
  view p id = elim (lookup id p.page_table) [
    | none ↦ D.page p.disk id
    | some idx ↦ (p.frames idx).content
  ]

  pub record IsSound (p : Pool L D) : Type 0 where
    pub seated_at :
        (id idx : ℕ) → lookup id p.page_table ≡ some idx → (p.frames idx).page_id ≡ some id
    pub listed : (id idx : ℕ) → (p.frames idx).page_id ≡ some id → lookup id p.page_table ≡ some idx
    pub clean :
        (id idx : ℕ)
        → (p.frames idx).page_id ≡ some id
        → (p.frames idx).dirty ≡ false
        → (p.frames idx).latched ≡ false
        → (p.frames idx).content ≡ D.page p.disk id
    pub marked :
        (id idx : ℕ)
        → (p.frames idx).page_id ≡ some id
        → (p.frames idx).dirty ≡ true
        → contains id p.dirty_pages ≡ true

  pub view-cached :
      (p : Pool L D) (id idx : ℕ)
      → lookup id p.page_table ≡ some idx
      → view p id ≡ (p.frames idx).content
  unfolding view
  view-cached p id idx e = rw (e, view)

  pub view-uncached :
      (p : Pool L D) (id : ℕ) → lookup id p.page_table ≡ none → view p id ≡ D.page p.disk id
  unfolding view
  view-uncached p id e = rw (e, view)

  -- The devices after a page was written, or was to be.
  pub record Wrote (p p' : Pool L D) (id : ℕ) (content : Buffer) (r : Result BufferError (Unit {0}))
      : Type 0 where
    pub log' : L.State
    pub disk' : D.State
    pub same : p' ≡ record p { log = log'; disk = disk' }
    pub others : (j : ℕ) → j ≢ id → D.page disk' j ≡ D.page p.disk j
    pub written : r ≡ ok tt → D.page disk' id ≡ content

  wrote_page-Wrote :
      (p : Pool L D) (w : L.State) (id : ℕ) (content : Buffer)
      (x : D.State × Result StorageError (Unit {0}))
      → D.write_page p.disk id content ≡ x
      → Wrote p
          (wrote_page L D (record p { log = w }) x).0
          id
          content
          (wrote_page L D (record p { log = w }) x).1
  unfolding wrote_page
  wrote_page-Wrote p w id content (s, ok _) e = record {
    log' = w;
    disk' = s;
    same = refl;
    others = λ j ne. rw (sym (ap (λ y. y.0) e)) (D.write_page_other p.disk id j content ne);
    written = λ h. D.write_page-ok p.disk s id content e;
  }
  wrote_page-Wrote p w id content (s, err x) e = record {
    log' = w;
    disk' = s;
    same = refl;
    others = λ j ne. rw (sym (ap (λ y. y.0) e)) (D.write_page_other p.disk id j content ne);
    written = λ h. absurd (cc h);
  }

  logged-Wrote :
      (p : Pool L D) (id : ℕ) (content : Buffer) (x : L.State × Result WalError (Unit {0}))
      → Wrote p
          (write_after_log L D p id content x).0
          id
          content
          (write_after_log L D p id content x).1
  unfolding write_after_log
  logged-Wrote p id content (w, ok _) = wrote_page-Wrote p w id content _ refl
  logged-Wrote p id content (w, err e) = record {
    log' = w;
    disk' = p.disk;
    same = refl;
    others = λ j ne. refl;
    written = λ h. absurd (cc h);
  }

  pub write_out-Wrote :
      (p : Pool L D) (id page_lsn : ℕ) (content : Buffer)
      → Wrote p
          (write_out L D p id page_lsn content).0
          id
          content
          (write_out L D p id page_lsn content).1
  unfolding write_out
  write_out-Wrote p id page_lsn content = logged-Wrote p id content _
