-- ===== src/Core/Examples.antt =====
-- Transactions, locks and record headers at concrete inputs.
use prism_db.Common.{
  ℕ, ◌+◌, ◌*◌, ◌/◌, ◌≤◌, ◌≡◌, ◌≢◌, ◌↔◌, refl, ap, List, [], ◌∷◌, ◌++◌, none, some, true, false,
  arith, length,
}
use prism_db.Common.Results.{Result, ok}
use prism_db.Common.Int.{pos}
use prism_db.Common.Maps.{lookup, contains, delete}
use prism_db.Wal.Payload.{WalError, LogRecord}
use prism_db.Core.Record.{RecordId, RecordHeader, encode, decode}
use prism_db.Core.Record.Codec.{decode-encode}
use prism_db.Core.CommitLog.{in_progress, status, status-new}
use prism_db.Core.Visibility.{effect_visible, visible}
use prism_db.Core.Lock.{
  LockManager, LockConfig, default_config, new, reachable, wait_for, set_wait_detect, deadlock,
  acquire_round, granted, holder, release_all, Event, round, released, timed_out, run, step,
}
use prism_db.Core.Lock
use prism_db.Core.Lock.Walks.{Walk}
use prism_db.Core.Lock.Acyclic.{IsAcyclic, run-new-IsAcyclic, deadlock_iff}
use prism_db.Core.Lock.Ownership.{release_all_frees, step_keeps_holder}
use prism_db.Core.Lock.Table.{holder-set_holder}
use prism_db.Core.LogDevice.{LogDevice}
use prism_db.Core.Txn.{
  TxnManager, read_write, read_only, register, allocate, publish_commit, commit_internal,
  abort_internal,
}
use prism_db.Core.Txn
use prism_db.Core.Txn.Outcome.{abort_internal_outcome, AbortOutcome}
use prism_db.Core.Txn.Isolation.{
  System, Reach, here, next, allocates, registers, commits, snapshot-stable,
}
use prism_db.Core.Txn.Race.{late_commit_seen}

abbrev old_version : RecordHeader
old_version = record {
  xmin = 7;
  xmax = 9;
  prev_version = some (record { page = 3; slot = 4 });
  flags = 6;
}

decode-encode_example :
    decode (encode old_version ++ (1 ∷ 2 ∷ []))
    ≡ some (record old_version { flags = 6 / 2 * 2 + 1 })
decode-encode_example = decode-encode old_version (1 ∷ 2 ∷ []) (omega arith)

-- 2 waits for 3, and 3 for 5.
abbrev waits : List (ℕ × List ℕ)
waits = (2, 3 ∷ []) ∷ (3, 5 ∷ []) ∷ []

reachable_runs : reachable waits 2 5 ≡ true
unfolding reachable Lock.reach_loop Lock.edge_count Lock.next lookup contains
reachable_runs = refl

abbrev r1 : RecordId
r1 = record { page = 4; slot = 0 }

abbrev r2 : RecordId
r2 = record { page = 5; slot = 0 }

-- Two transactions take a record each and ask for the other's.
abbrev crossing : List Event
crossing = round 10 r1 false ∷ round 20 r2 false ∷ round 10 r2 false ∷ round 20 r1 false ∷ []

run-new-IsAcyclic_example : IsAcyclic (run (new default_config) crossing).graph
run-new-IsAcyclic_example = run-new-IsAcyclic default_config crossing

abbrev one_waits : LockManager
one_waits = record (new default_config) { graph = (10, 20 ∷ []) ∷ [] }

deadlock_iff_example :
    ((wait_for one_waits 20 10 false).1 ≡ deadlock)
    ↔ Walk (set_wait_detect one_waits.graph 20 10).0 10 20
deadlock_iff_example = deadlock_iff one_waits 20 10 false

release_all_frees_example :
    (holder (release_all (run (new default_config) crossing) 10) r1 ≢ some 10)
    × ((t : ℕ)
        → t ≢ 10
        → holder (run (new default_config) crossing) r1 ≡ some t
        → holder (release_all (run (new default_config) crossing) 10) r1 ≡ some t)
release_all_frees_example = release_all_frees default_config crossing 10 r1

ten_holds : holder (Lock.set_holder (new default_config) r1 (some 10)) r1 ≡ some 10
unfolding Lock.same_rid
ten_holds = holder-set_holder (new default_config) r1 r1 (some 10)

other_round : round 20 r1 false ≢ released 10
other_round e = cc

step_keeps_holder_example :
    holder (step (Lock.set_holder (new default_config) r1 (some 10)) (round 20 r1 false)) r1
    ≡ some 10
step_keeps_holder_example =
    step_keeps_holder (Lock.set_holder (new default_config) r1 (some 10)) (round 20 r1 false) r1 10
      ten_holds other_round

-- A log that keeps its records in memory and never fails.
record MemoryLog : Type 0 where
  records : List LogRecord
  durable : ℕ

append_memory : MemoryLog → LogRecord → MemoryLog × Result WalError ℕ
append_memory s r = (record s { records = r ∷ s.records }, ok (length s.records + 1))

ok_inj : {a b : ℕ} → ◌≡◌ {A = Result WalError ℕ} (ok a) (ok b) → a ≡ b
ok_inj e = cc e

append_memory-last :
    (s s' : MemoryLog) (r : LogRecord) (lsn : ℕ)
    → append_memory s r ≡ (s', ok lsn)
    → length s'.records ≡ lsn
unfolding append_memory
append_memory-last s s' r lsn e =
    let given : ◌≡◌ {A = Result WalError ℕ} (ok (length s.records + 1)) (ok lsn) =
      ap (λ (x : MemoryLog × Result WalError ℕ). x.1) e in
    omega (arith, ap (λ (x : MemoryLog × Result WalError ℕ). length x.0.records) e, ok_inj given)

flush_memory : MemoryLog → ℕ → MemoryLog × Result WalError (Unit {0})
flush_memory s up_to = (record s { durable = length s.records }, ok tt)

flush_memory-durable :
    (s s' : MemoryLog) (up_to : ℕ)
    → up_to ≤ length s.records
    → flush_memory s up_to ≡ (s', ok tt)
    → up_to ≤ s'.durable
unfolding flush_memory
flush_memory-durable s s' up_to h e =
    omega (arith, h, ap (λ (r : MemoryLog × Result WalError (Unit {0})). r.0.durable) e)

abbrev memory_log : LogDevice
memory_log = record {
  State = MemoryLog;
  append = append_memory;
  flush_through = flush_memory;
  last_lsn = λ s. length s.records;
  durable_lsn = λ s. s.durable;
  append-last = append_memory-last;
  flush-durable = flush_memory-durable;
}

-- Transactions 2 and 3 have their ids; neither has registered.
abbrev manager : TxnManager MemoryLog
manager = record (Txn.new (record { records = []; durable = 0 })) { next_txn = 4 }

abort_internal_outcome_example :
    AbortOutcome memory_log manager 2 (abort_internal memory_log manager 2 read_write 0)
abort_internal_outcome_example = abort_internal_outcome memory_log manager 2 0

only_two : (t : ℕ) → contains t (2 ∷ []) ≡ true → t ≡ 2
unfolding contains
only_two t h = ground arith

-- After 2 has its snapshot, 4 begins and commits.
abbrev begun : System MemoryLog
begun = record { manager = (register manager 2 read_write).0; pending = delete 2 (2 ∷ []) }

abbrev allocated : TxnManager MemoryLog
allocated = (allocate begun.manager).0

abbrev registered : TxnManager MemoryLog
registered = (register allocated 4 read_write).0

abbrev after_commit : System MemoryLog
after_commit = record {
  manager = (publish_commit memory_log registered 4 read_write 0 (pos 1)).0;
  pending = delete 4 (4 ∷ delete 2 (2 ∷ []));
}

four_commits : Reach memory_log begun after_commit
unfolding allocate register contains
four_commits =
    next
      (next (next here (allocates begun.manager (delete 2 (2 ∷ [])) (omega arith)))
        (registers allocated (4 ∷ delete 2 (2 ∷ [])) 4 read_write refl))
      (commits registered (delete 4 (4 ∷ delete 2 (2 ∷ []))) 4 read_write 0 (pos 1) refl)

abbrev by_four : RecordHeader
by_four = record { xmin = 4; xmax = 0; prev_version = none; flags = 0 }

snapshot-stable_example :
    visible by_four (register manager 2 read_write).1.snapshot after_commit.manager.commit_log
    ≡ visible by_four (register manager 2 read_write).1.snapshot manager.commit_log
snapshot-stable_example =
    snapshot-stable memory_log manager (2 ∷ []) 2 read_write only_two by_four four_commits

three_open : status manager.commit_log 3 ≡ in_progress
unfolding Txn.new
three_open = status-new 3

three_commits :
    (commit_internal memory_log
      (register (register manager 2 read_write).0 3 read_write).0
      3
      read_write
      0
      (pos 1)).1
    ≡ ok tt
unfolding commit_internal Txn.publish_commit Txn.log_durably Txn.flush_appended Txn.flushed_at
    Txn.committed_as Txn.then_retire flush_memory append_memory
three_commits = refl

late_commit_seen_example :
    (effect_visible 3 (register manager 2 read_write).1.snapshot manager.commit_log ≡ false)
    × (effect_visible 3
          (register manager 2 read_write).1.snapshot
          (commit_internal memory_log
            (register (register manager 2 read_write).0 3 read_write).0
            3
            read_write
            0
            (pos 1)).0.commit_log
        ≡ true)
late_commit_seen_example =
    late_commit_seen memory_log manager 2 3 0 read_write (pos 1) (omega arith) (omega arith)
      (unfold Txn.new in omega arith) (unfold Txn.new contains in refl) three_open three_commits
