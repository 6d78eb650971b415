-- ===== src/Core/Lock/Ownership.antt =====
-- crates/prism-core/src/lock.rs: who holds which record, over any history of lock operations.
use prism_db.Common.{
  ℕ, ◌≡◌, ◌≢◌, ◌↔◌, inl, inr, ◌∙◌, sym, refl, ap, Bool, true, false, ◌&&◌, ◌||◌, List, [], ◌∷◌,
  ◌++◌, Option, none, some, if◌then◌else◌, ◌==◌, arith, Bool-cases,
}
use prism_db.Common.Maps.{remove, lookup-insert, lookup-remove}
use prism_db.Core.Record.{RecordId}
use prism_db.Core.Lock
use prism_db.Core.Lock.{
  LockManager, LockConfig, new, same_rid, holder, set_holder, find_state, Decision, acquired,
  reentrant, wait, decide_lock, carry_out, take_lock, wait_for, acquire_round, wait_timed_out,
  held_by, release_one, release_each, release_all, is_held_by, Event, round, timed_out, released,
  run, step, Outcome, granted, set_wait_detect,
}
use prism_db.Core.Lock.Table.{same_rid→eq, same_rid_refl, holder-set_holder}

abbrev pub listed : RecordId → List RecordId → Bool
listed rid [] = false
listed rid (r ∷ rs) = same_rid r rid || listed rid rs

listed-append :
    (rid : RecordId) (xs ys : List RecordId)
    → listed rid (xs ++ ys) ≡ (listed rid xs || listed rid ys)
listed-append rid [] ys = refl
listed-append rid (x ∷ xs) ys = ground (arith, listed-append rid xs ys)

-- Every lock that is held is on its holder's list, which `release_all` goes through.
pub IsRecorded : LockManager → Type 0
IsRecorded lm = (rid : RecordId) (t : ℕ) → holder lm rid ≡ some t → listed rid (held_by lm t) ≡ true

-- The waits change no holder and no list.
holder_of_wait :
    (lm : LockManager) (txn h : ℕ) (expired : Bool) (rid : RecordId)
    → holder (wait_for lm txn h expired).0 rid ≡ holder lm rid
unfolding wait_for holder Lock.shard_index
holder_of_wait lm txn h expired rid = ground arith

held_of_wait :
    (lm : LockManager) (txn h : ℕ) (expired : Bool) (t : ℕ)
    → held_by (wait_for lm txn h expired).0 t ≡ held_by lm t
unfolding wait_for held_by
held_of_wait lm txn h expired t = ground arith

holder-take_lock :
    (lm : LockManager) (txn : ℕ) (rid r : RecordId)
    → holder (take_lock lm txn rid) r ≡ (if same_rid rid r then some txn else holder lm r)
holder-take_lock lm txn rid r = same_table ∙ holder-set_holder lm rid r (some txn)
  where
    same_table : holder (take_lock lm txn rid) r ≡ holder (set_holder lm rid (some txn)) r
    same_table = unfold take_lock holder Lock.shard_index in refl

held-take_lock :
    (lm : LockManager) (txn : ℕ) (rid : RecordId) (t : ℕ)
    → held_by (take_lock lm txn rid) t
      ≡ (if txn == t then held_by lm txn ++ (rid ∷ []) else held_by lm t)
unfolding take_lock held_by set_holder
held-take_lock lm txn rid t =
    ground (arith, lookup-insert txn t (held_by lm txn ++ (rid ∷ [])) lm.held)

take_lock-IsRecorded :
    (lm : LockManager) (txn : ℕ) (rid : RecordId)
    → IsRecorded lm
    → IsRecorded (take_lock lm txn rid)
unfolding IsRecorded
take_lock-IsRecorded lm txn rid v = λ r t e. elim (Bool-cases (txn == t)) [
  | inl mine ↦
      let same : txn ≡ t = ground arith in
      ground (
        arith,
        holder-take_lock lm txn rid r,
        held-take_lock lm txn rid t,
        listed-append r (held_by lm txn) (rid ∷ []),
        v r t,
        ap (held_by lm) same,
      )
  | inr other ↦ ground (arith, holder-take_lock lm txn rid r, held-take_lock lm txn rid t, v r t)
]

holder-release_one :
    (lm : LockManager) (txn : ℕ) (rid r : RecordId)
    → holder (release_one lm txn rid) r
      ≡ (if is_held_by (holder lm r) txn && same_rid rid r then none else holder lm r)
unfolding release_one
holder-release_one lm txn rid r = elim (Bool-cases (same_rid rid r)) [
  | inl e ↦ ground (arith, holder-set_holder lm rid r none, ap (holder lm) (same_rid→eq rid r e))
  | inr e ↦ ground (arith, holder-set_holder lm rid r none)
]

-- Of the records on the list, those that the transaction holds become free.
holder-release_each :
    (lm : LockManager) (txn : ℕ) (rids : List RecordId) (r : RecordId)
    → holder (release_each lm txn rids) r
      ≡ (if is_held_by (holder lm r) txn && listed r rids then none else holder lm r)
unfolding release_each is_held_by
holder-release_each lm txn [] r = ground arith
holder-release_each lm txn (rid ∷ rids) r = ground (
  arith,
  holder-release_one lm txn rid r,
  holder-release_each (release_one lm txn rid) txn rids r,
)

held-release_each :
    (lm : LockManager) (txn : ℕ) (rids : List RecordId) → (release_each lm txn rids).held ≡ lm.held
unfolding release_each release_one set_holder
held-release_each lm txn [] = refl
held-release_each lm txn (rid ∷ rids) =
    held-release_each (release_one lm txn rid) txn rids ∙ ground arith

holder-release_all :
    (lm : LockManager) (txn : ℕ) (r : RecordId)
    → holder (release_all lm txn) r
      ≡ (if is_held_by (holder lm r) txn && listed r (held_by lm txn) then none else holder lm r)
unfolding release_all
holder-release_all lm txn r =
    same_table ∙ holder-release_each dropped txn (held_by lm txn) r ∙ same_before
  where
    dropped : LockManager
    dropped = record lm { held = remove txn lm.held }

    same_table :
        holder (release_all lm txn) r ≡ holder (release_each dropped txn (held_by lm txn)) r
    same_table = unfold release_all holder Lock.shard_index in refl

    same_before :
        (if is_held_by (holder dropped r) txn && listed r (held_by lm txn)
          then none
          else holder dropped r)
        ≡ (if is_held_by (holder lm r) txn && listed r (held_by lm txn) then none else holder lm r)
    same_before = unfold holder Lock.shard_index in refl

held-release_all :
    (lm : LockManager) (txn t : ℕ)
    → held_by (release_all lm txn) t ≡ (if txn == t then [] else held_by lm t)
unfolding release_all held_by
held-release_all lm txn t = ground (
  arith,
  held-release_each (record lm { held = remove txn lm.held }) txn (held_by lm txn),
  lookup-remove txn t lm.held,
)

release_all-IsRecorded :
    (lm : LockManager) (txn : ℕ) → IsRecorded lm → IsRecorded (release_all lm txn)
unfolding IsRecorded is_held_by
release_all-IsRecorded lm txn v =
    λ r t e. ground (arith, holder-release_all lm txn r, held-release_all lm txn t, v r t)

carry_out-IsRecorded :
    (lm : LockManager) (txn : ℕ) (rid : RecordId) (expired : Bool) (d : Decision)
    → IsRecorded lm
    → IsRecorded (carry_out lm txn rid expired d).0
unfolding carry_out
carry_out-IsRecorded lm txn rid expired acquired v = take_lock-IsRecorded lm txn rid v
carry_out-IsRecorded lm txn rid expired reentrant v = v
carry_out-IsRecorded lm txn rid expired (wait h) v =
    unfold IsRecorded in
    λ r t e.
      rw (held_of_wait lm txn h expired t) (v r t (sym (holder_of_wait lm txn h expired r) ∙ e))

timed_out-IsRecorded :
    (lm : LockManager) (txn : ℕ) → IsRecorded lm → IsRecorded (wait_timed_out lm txn).0
unfolding wait_timed_out IsRecorded holder held_by Lock.shard_index
timed_out-IsRecorded lm txn v = v

step-IsRecorded : (lm : LockManager) (e : Event) → IsRecorded lm → IsRecorded (step lm e)
unfolding step acquire_round
step-IsRecorded lm (round txn rid expired) v = carry_out-IsRecorded lm txn rid expired _ v
step-IsRecorded lm (timed_out txn) v = timed_out-IsRecorded lm txn v
step-IsRecorded lm (released txn) v = release_all-IsRecorded lm txn v

run-IsRecorded : (lm : LockManager) (es : List Event) → IsRecorded lm → IsRecorded (run lm es)
unfolding run
run-IsRecorded lm [] v = v
run-IsRecorded lm (e ∷ es) v = run-IsRecorded (step lm e) es (step-IsRecorded lm e v)

new-IsRecorded : (config : LockConfig) → IsRecorded (new config)
unfolding IsRecorded new holder find_state
new-IsRecorded config = λ r t e. cc

-- After any history, releasing a transaction's locks leaves it no record, and takes from no other
-- transaction a record that it holds.
pub release_all_frees :
    (config : LockConfig) (es : List Event) (txn : ℕ) (rid : RecordId)
    → (holder (release_all (run (new config) es) txn) rid ≢ some txn)
      × ((t : ℕ)
          → t ≢ txn
          → holder (run (new config) es) rid ≡ some t
          → holder (release_all (run (new config) es) txn) rid ≡ some t)
release_all_frees config es txn rid =
    freed (run (new config) es) (run-IsRecorded (new config) es (new-IsRecorded config))
  where
    freed :
        (lm : LockManager)
        → IsRecorded lm
        → (holder (release_all lm txn) rid ≢ some txn)
          × ((t : ℕ) → t ≢ txn → holder lm rid ≡ some t → holder (release_all lm txn) rid ≡ some t)
    freed lm v =
        unfold IsRecorded is_held_by in
        (
          λ e. ground (arith, holder-release_all lm txn rid, v rid txn),
          λ t other e. ground (arith, holder-release_all lm txn rid),
        )

free_of_acquired : (o : Option ℕ) (txn : ℕ) → decide_lock o txn ≡ acquired → o ≡ none
unfolding decide_lock
free_of_acquired none txn e = refl
free_of_acquired (some h) txn e = ground arith

kept_by_decision :
    (lm : LockManager) (txn : ℕ) (rid r : RecordId) (expired : Bool) (d : Decision) (t : ℕ)
    → (d ≡ acquired → holder lm rid ≡ none)
    → holder lm r ≡ some t
    → holder (carry_out lm txn rid expired d).0 r ≡ some t
unfolding carry_out
kept_by_decision lm txn rid r expired acquired t free e = elim (Bool-cases (same_rid rid r)) [
  | inl here ↦ ground (arith, free refl, ap (holder lm) (same_rid→eq rid r here))
  | inr away ↦ ground (arith, holder-take_lock lm txn rid r)
]
kept_by_decision lm txn rid r expired reentrant t free e = e
kept_by_decision lm txn rid r expired (wait h) t free e = holder_of_wait lm txn h expired r ∙ e

-- A held record keeps its holder through every round, timeout and release but the holder's own
-- release: no other transaction takes the lock away or shares it.
pub step_keeps_holder :
    (lm : LockManager) (e : Event) (rid : RecordId) (t : ℕ)
    → holder lm rid ≡ some t
    → e ≢ released t
    → holder (step lm e) rid ≡ some t
unfolding step acquire_round
step_keeps_holder lm (round txn r expired) rid t h ne =
    kept_by_decision lm txn r rid expired _ t (free_of_acquired (holder lm r) txn) h
step_keeps_holder lm (timed_out txn) rid t h ne = unfold wait_timed_out holder Lock.shard_index in h
step_keeps_holder lm (released txn) rid t h ne =
    unfold is_held_by in
    let other : txn ≢ t = λ e. ne (ap released e) in ground (arith, holder-release_all lm txn rid)

wait_for-ne-granted :
    (lm : LockManager) (txn h : ℕ) (expired : Bool) → (wait_for lm txn h expired).1 ≢ granted
unfolding wait_for
wait_for-ne-granted lm txn h expired = ground arith

granted_by_decision :
    (lm : LockManager) (txn : ℕ) (rid : RecordId) (expired : Bool) (o : Option ℕ)
    → holder lm rid ≡ o
    → ((carry_out lm txn rid expired (decide_lock o txn)).1 ≡ granted)
      ↔ (holder (carry_out lm txn rid expired (decide_lock o txn)).0 rid ≡ some txn)
unfolding carry_out decide_lock
granted_by_decision lm txn rid expired none e =
    (λ _. ground (arith, holder-take_lock lm txn rid rid, same_rid_refl rid), λ _. refl)
granted_by_decision lm txn rid expired (some h) e = elim (Bool-cases (h == txn)) [
  | inl mine ↦ (λ g. ground arith, λ g. ground arith)
  | inr other ↦ (
    λ g. ground (arith, wait_for-ne-granted lm txn h expired),
    λ g. ground (arith, holder_of_wait lm txn h expired rid),
  )
]

-- A round grants the lock exactly when the record is the transaction's afterwards.
pub granted_iff :
    (lm : LockManager) (txn : ℕ) (rid : RecordId) (expired : Bool)
    → ((acquire_round lm txn rid expired).1 ≡ granted)
      ↔ (holder (acquire_round lm txn rid expired).0 rid ≡ some txn)
unfolding acquire_round
granted_iff lm txn rid expired = granted_by_decision lm txn rid expired (holder lm rid) refl
