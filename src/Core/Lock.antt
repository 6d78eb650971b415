-- ===== src/Core/Lock.antt =====
-- crates/prism-core/src/lock.rs: per-record write locks with deadlock detection. A round of the
-- loop of `acquire` runs under its shard's mutex and is one step here; the wait on the condition
-- variable is the time between two rounds, in which other transactions take theirs.
pub mod Walks
pub mod Acyclic
pub mod Table
pub mod Ownership
use Prim.Native.Nat.{bit_xor}
use prism_db.Common.{
  ℕ, zero, suc, ◌+◌, ◌*◌, ◌%◌, ◌^◌, max, Bool, true, false, List, [], ◌∷◌, ◌++◌, Option, none, some,
  length, if◌then◌else◌, ◌==◌, ◌&&◌,
}
use prism_db.Common.Maps.{lookup, insert, remove, contains}
use prism_db.Core.Record.{RecordId}

-- The durations are in milliseconds.
pub record LockConfig : Type 0 where
  pub shards : ℕ
  pub default_timeout : ℕ

pub default_config : LockConfig
default_config = record { shards = 64; default_timeout = 30_000 }

-- `txn -> the transactions it is waiting on`
abbrev pub WaitForGraph : Type 0
WaitForGraph = List (ℕ × List ℕ)

-- A shard's map from records to the holder in their lock state.
abbrev pub ShardMap : Type 0
ShardMap = List (RecordId × Option ℕ)

pub record LockManager : Type 0 where
  pub shards : ℕ
  pub shard_map : ℕ → ShardMap
  pub held : List (ℕ × List RecordId)
  pub graph : WaitForGraph
  pub default_timeout : ℕ

unfoldable pub new : LockConfig → LockManager
new config = record {
  shards = max config.shards 1;
  shard_map = λ _. [];
  held = [];
  graph = [];
  default_timeout = config.default_timeout;
}

unfoldable pub same_rid : RecordId → RecordId → Bool
same_rid a b = a.page == b.page && a.slot == b.slot

unfoldable pub shard_index : LockManager → RecordId → ℕ
shard_index lm rid = bit_xor (rid.page * 0x9E37_79B9_7F4A_7C15 % 2 ^ 64) rid.slot % lm.shards

unfoldable pub find_state : RecordId → ShardMap → Option (Option ℕ)
find_state rid [] = none
find_state rid ((r, s) ∷ m) = if same_rid r rid then some s else find_state rid m

unfoldable pub set_state : RecordId → Option ℕ → ShardMap → ShardMap
set_state rid s [] = (rid, s) ∷ []
set_state rid s ((r, old) ∷ m) = if same_rid r rid then (r, s) ∷ m else (r, old) ∷ set_state rid s m

abbrev pub or_default : Option (Option ℕ) → Option ℕ
or_default none = none
or_default (some s) = s

-- The transaction that a record is locked by.
unfoldable pub holder : LockManager → RecordId → Option ℕ
holder lm rid = or_default (find_state rid (lm.shard_map (shard_index lm rid)))

unfoldable pub set_holder : LockManager → RecordId → Option ℕ → LockManager
set_holder lm rid s =
    let here = shard_index lm rid in
    record lm {
      shard_map = λ i. if i == here then set_state rid s (lm.shard_map i) else lm.shard_map i;
    }

-- The transactions that `node` waits on.
unfoldable pub next : WaitForGraph → ℕ → List ℕ
next edges node = elim (lookup node edges) [ none ↦ [] | some ns ↦ ns ]

-- The `while` loop of `reachable`; `none` means that the fuel ran out. The order in which a
-- `HashSet` lists its elements is not fixed, and no result depends on it.
unfoldable pub reach_loop : ℕ → WaitForGraph → ℕ → List ℕ → List ℕ → Option Bool
reach_loop fuel edges target [] seen = some false
reach_loop zero edges target (node ∷ stack) seen = none
reach_loop (suc fuel) edges target (node ∷ stack) seen = elim (node == target) [
  | true ↦ some true
  | false ↦ elim (contains node seen) [
    | true ↦ reach_loop fuel edges target stack seen
    | false ↦ reach_loop fuel edges target (next edges node ++ stack) (node ∷ seen)
  ]
]

-- Each round takes one entry off the stack, and each edge is put on it once at most.
unfoldable pub edge_count : WaitForGraph → ℕ
edge_count [] = 0
edge_count ((_, ns) ∷ m) = length ns + edge_count m

unfoldable pub reachable : WaitForGraph → ℕ → ℕ → Bool
reachable edges start target =
    elim (reach_loop (1 + edge_count edges) edges target (start ∷ []) []) [
      | some b ↦ b
      | none ↦ false
    ]

unfoldable pub set_wait_detect : WaitForGraph → ℕ → ℕ → WaitForGraph × Bool
set_wait_detect edges txn holder =
    let edges' = insert txn (holder ∷ []) edges in (edges', reachable edges' holder txn)

unfoldable pub clear : WaitForGraph → ℕ → WaitForGraph
clear edges txn = remove txn edges

pub data Decision : Type 0 where
  acquired reentrant : Decision
  wait : ℕ → Decision

unfoldable pub decide_lock : Option ℕ → ℕ → Decision
decide_lock none txn = acquired
decide_lock (some h) txn = if h == txn then reentrant else wait h

-- `waiting` stands for a round that ends in the wait.
pub data Outcome : Type 0 where
  granted deadlock lock_timeout waiting : Outcome

unfoldable pub held_by : LockManager → ℕ → List RecordId
held_by lm txn = elim (lookup txn lm.held) [ none ↦ [] | some rids ↦ rids ]

unfoldable pub take_lock : LockManager → ℕ → RecordId → LockManager
take_lock lm txn rid =
    let lm' = set_holder lm rid (some txn) in
    record lm' {
      graph = clear lm'.graph txn;
      held = insert txn (held_by lm' txn ++ (rid ∷ [])) lm'.held;
    }

unfoldable pub wait_for : LockManager → ℕ → ℕ → Bool → LockManager × Outcome
wait_for lm txn holder expired =
    let (edges, cycle) = set_wait_detect lm.graph txn holder in
    if cycle
    then (record lm { graph = clear edges txn }, deadlock)
    else if expired
    then (record lm { graph = clear edges txn }, lock_timeout)
    else (record lm { graph = edges }, waiting)

unfoldable pub carry_out : LockManager → ℕ → RecordId → Bool → Decision → LockManager × Outcome
carry_out lm txn rid expired acquired = (take_lock lm txn rid, granted)
carry_out lm txn rid expired reentrant = (lm, granted)
carry_out lm txn rid expired (wait h) = wait_for lm txn h expired

-- One round; `expired` says that the deadline has passed.
unfoldable pub acquire_round : LockManager → ℕ → RecordId → Bool → LockManager × Outcome
acquire_round lm txn rid expired = carry_out lm txn rid expired (decide_lock (holder lm rid) txn)

-- The wait ended by its timeout.
unfoldable pub wait_timed_out : LockManager → ℕ → LockManager × Outcome
wait_timed_out lm txn = (record lm { graph = clear lm.graph txn }, lock_timeout)

unfoldable pub is_held_by : Option ℕ → ℕ → Bool
is_held_by none txn = false
is_held_by (some h) txn = h == txn

unfoldable pub release_one : LockManager → ℕ → RecordId → LockManager
release_one lm txn rid = if is_held_by (holder lm rid) txn then set_holder lm rid none else lm

unfoldable pub release_each : LockManager → ℕ → List RecordId → LockManager
release_each lm txn [] = lm
release_each lm txn (rid ∷ rids) = release_each (release_one lm txn rid) txn rids

unfoldable pub release_all : LockManager → ℕ → LockManager
release_all lm txn =
    let rids = held_by lm txn in
    let freed = release_each (record lm { held = remove txn lm.held }) txn rids in
    record freed { graph = clear freed.graph txn }

-- What the threads do, in the order in which they get the mutexes.
pub data Event : Type 0 where
  round : (txn : ℕ) (rid : RecordId) (expired : Bool) → Event
  timed_out : (txn : ℕ) → Event
  released : (txn : ℕ) → Event

unfoldable pub step : LockManager → Event → LockManager
step lm (round txn rid expired) = (acquire_round lm txn rid expired).0
step lm (timed_out txn) = (wait_timed_out lm txn).0
step lm (released txn) = release_all lm txn

unfoldable pub run : LockManager → List Event → LockManager
run lm [] = lm
run lm (e ∷ es) = run (step lm e) es
