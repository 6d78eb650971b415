-- ===== src/Buffer/Paging/Failures.antt =====
-- crates/prism-buffer/src/pool.rs: how a round of the clock fails.
use prism_db.Common.{ℕ, ◌≡◌, ◌≢◌, ◌⊎◌, inl, inr, refl, Option, none, some, ltb, Bool-cases}
use prism_db.Common.Results.{Result, ok, err}
use prism_db.Wal.Payload.{WalError}
use prism_db.Storage.Bytes.{Buffer}
use prism_db.Core.LogDevice.{LogDevice}
use prism_db.Buffer.Devices.{StorageError, BufferError, exhausted, DiskDevice}
use prism_db.Buffer.Paging.{
  Pool, Turn, passed, taken, stopped, evict_dirty, evict, visit, wrote_page, write_after_log,
  write_out, taken_after,
}

module _ (L : LogDevice) (D : DiskDevice) where
  pub Turn-cases :
      (t : Turn L D)
      → ((p' : Pool L D) × (t ≡ passed p'))
        ⊎ (((p' : Pool L D) × (i : ℕ) × (t ≡ taken p' i))
            ⊎ ((p' : Pool L D) × (x : BufferError) × (t ≡ stopped p' x)))
  Turn-cases (passed p') = inl (p', refl)
  Turn-cases (taken p' i) = inr (inl (p', i, refl))
  Turn-cases (stopped p' x) = inr (inr (p', x, refl))

  abbrev pub IsDevice : BufferError → Type 0
  IsDevice x = (n : ℕ) → x ≢ exhausted n

  wrote_page-err :
      (p p' : Pool L D) (r : D.State × Result StorageError (Unit {0})) (x : BufferError)
      → wrote_page L D p r ≡ (p', err x)
      → IsDevice x
  unfolding wrote_page
  wrote_page-err p p' (s, ok _) x h n q = cc h
  wrote_page-err p p' (s, err e) x h n q = cc (h, q)

  write_out-err :
      (p p' : Pool L D) (id : ℕ) (content : Buffer) (r : L.State × Result WalError (Unit {0}))
      (x : BufferError)
      → write_after_log L D p id content r ≡ (p', err x)
      → IsDevice x
  unfolding write_after_log
  write_out-err p p' id content (w, err e) x h n q = cc (h, q)
  write_out-err p p' id content (w, ok _) x h n q = wrote_page-err _ p' _ x h n q

  taken_after-stopped :
      (p' : Pool L D) (idx : ℕ) (r : Pool L D × Result BufferError (Unit {0})) (x : BufferError)
      → taken_after L D idx r ≡ stopped p' x
      → r ≡ (p', err x)
  unfolding taken_after
  taken_after-stopped p' idx (p, ok _) x h = absurd (cc h)
  taken_after-stopped p' idx (p, err e) x h = cc h

  evict_dirty-stopped :
      (p p' : Pool L D) (idx : ℕ) (o : Option ℕ) (x : BufferError)
      → evict_dirty L D p idx o ≡ stopped p' x
      → IsDevice x
  unfolding evict_dirty write_out
  evict_dirty-stopped p p' idx none x h = absurd (cc h)
  evict_dirty-stopped p p' idx (some old) x h = elim (Bool-cases (p.frames idx).latched) [
    | inl l ↦ absurd (cc (rw l at h))
    | inr l ↦ write_out-err p p' old _ _ x (taken_after-stopped p' idx _ x (rw l at h))
  ]

  pub visit-stopped :
      (p p' : Pool L D) (idx : ℕ) (x : BufferError) → visit L D p idx ≡ stopped p' x → IsDevice x
  unfolding visit evict
  visit-stopped p p' idx x h = elim (Bool-cases (ltb 0 (p.frames idx).pin_count)) [
    | inl a ↦ absurd (cc (rw a at h))
    | inr a ↦ elim (Bool-cases (ltb 0 (p.frames idx).usage_count)) [
      | inl u ↦ absurd (cc (rw (a, u) at h))
      | inr u ↦ elim (Bool-cases (p.frames idx).dirty) [
        | inl d ↦ evict_dirty-stopped p p' idx _ x (rw (a, u, d) at h)
        | inr d ↦ absurd (cc (rw (a, u, d) at h))
      ]
    ]
  ]
