-- ===== src/Core/Visibility.antt =====
-- crates/prism-core/src/txn.rs (Snapshot) and visibility.rs: which record versions a snapshot sees.
use prism_db.Common.{ℕ, Bool, true, false, List, if◌then◌else◌, ◌==◌, leb, not}
use prism_db.Common.Maps.{contains}
use prism_db.Core.CommitLog.{
  CommitLog, CommitStatus, in_progress, committed, aborted, status, no_txn,
}
use prism_db.Core.Record.{RecordHeader}

pub record Snapshot : Type 0 where
  pub txn_id : ℕ
  pub xmin : ℕ
  pub xmax : ℕ
  pub active : List ℕ

abbrev pub is_committed : CommitStatus → Bool
is_committed in_progress = false
is_committed (committed _) = true
is_committed aborted = false

unfoldable pub effect_visible : ℕ → Snapshot → CommitLog → Bool
effect_visible t snapshot commits =
    if t == no_txn
    then false
    else if t == snapshot.txn_id
    then true
    else if leb snapshot.xmax t
    then false
    else if contains t snapshot.active
    then false
    else is_committed (status commits t)

unfoldable pub visible : RecordHeader → Snapshot → CommitLog → Bool
visible header snapshot commits =
    if not (effect_visible header.xmin snapshot commits)
    then false
    else if header.xmax == no_txn
    then true
    else if effect_visible header.xmax snapshot commits
    then false
    else true
