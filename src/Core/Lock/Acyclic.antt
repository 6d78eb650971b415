-- ===== src/Core/Lock/Acyclic.antt =====
-- crates/prism-core/src/lock.rs: cycles in the wait-for graph, over any sequence of
-- lock operations.
use prism_db.Common.{
  ℕ, ◌≡◌, ◌↔◌, ◌⊎◌, inl, inr, ◌∙◌, sym, refl, subst, Bool, true, false, List, [], ◌∷◌,
  if◌then◌else◌, ◌==◌, arith, Bool-cases,
}
use prism_db.Common.Maps.{lookup, insert, remove, contains, lookup-insert, lookup-remove}
use prism_db.Core.Record.{RecordId}
use prism_db.Core.Lock.{
  WaitForGraph, LockManager, LockConfig, new, next, reachable, set_wait_detect, clear,
  acquire_round, wait_for, take_lock, set_holder, wait_timed_out, release_all, release_each,
  release_one, Event, round, timed_out, released, run, Outcome, deadlock, granted, Decision,
  acquired, reentrant, wait, carry_out, held_by,
}
use prism_db.Core.Lock
use prism_db.Core.Lock.Walks.{Walk, here, step, walk_trans, reachable_iff}

-- No transaction waits for itself.
pub IsAcyclic : WaitForGraph → Type 0
IsAcyclic edges = (a b : ℕ) → contains b (next edges a) ≡ true → ¬ Walk edges b a

next-clear :
    (edges : WaitForGraph) (t a : ℕ)
    → next (clear edges t) a ≡ (if t == a then [] else next edges a)
unfolding next clear
next-clear edges t a = ground (arith, lookup-remove t a edges)

next-insert :
    (edges : WaitForGraph) (t h a : ℕ)
    → next (insert t (h ∷ []) edges) a ≡ (if t == a then h ∷ [] else next edges a)
unfolding next
next-insert edges t h a = ground (arith, lookup-insert t a (h ∷ []) edges)

edge_of_clear :
    (edges : WaitForGraph) (t a b : ℕ)
    → contains b (next (clear edges t) a) ≡ true
    → contains b (next edges a) ≡ true
unfolding contains
edge_of_clear edges t a b h = ground (arith, next-clear edges t a)

-- With fewer edges there are fewer walks.
module _ (edges edges' : WaitForGraph)
    (fewer : (a b : ℕ) → contains b (next edges' a) ≡ true → contains b (next edges a) ≡ true) where
  walk_of_fewer : {a b : ℕ} → Walk edges' a b → Walk edges a b
  walk_of_fewer (here a) = here a
  walk_of_fewer (step a b e w) = step a b (fewer a b e) (walk_of_fewer w)

  fewer-IsAcyclic : IsAcyclic edges → IsAcyclic edges'
  unfolding IsAcyclic
  fewer-IsAcyclic acyclic = λ a b e w. acyclic a b (fewer a b e) (walk_of_fewer w)

pub clear-IsAcyclic : (edges : WaitForGraph) (t : ℕ) → IsAcyclic edges → IsAcyclic (clear edges t)
clear-IsAcyclic edges t = fewer-IsAcyclic edges (clear edges t) (edge_of_clear edges t)

-- The graph in which `t` waits for `h`, and for nothing else.
module _ (edges : WaitForGraph) (t h : ℕ) where
  added : WaitForGraph
  added = insert t (h ∷ []) edges

  edge_of_added :
      (a b : ℕ)
      → contains b (next added a) ≡ true
      → ((a ≡ t) × (b ≡ h)) ⊎ (contains b (next edges a) ≡ true)
  unfolding added contains
  edge_of_added a b e = elim (Bool-cases (t == a)) [
    | inl same ↦ inl (ground arith, ground (arith, next-insert edges t h a))
    | inr other ↦ inr (ground (arith, next-insert edges t h a))
  ]

  -- A walk in it either avoids the new edge, or reaches `t` and goes on from `h`.
  walk_of_added : {a b : ℕ} → Walk added a b → Walk edges a b ⊎ (Walk added a t × Walk added h b)
  walk_of_added (here a) = inl (here a)
  walk_of_added {b = c} (step a b e w) = elim (edge_of_added a b e) [
    | inl (from, to) ↦
        inr (subst (λ x. Walk added x t) (sym from) (here t), subst (λ x. Walk added x c) to w)
    | inr old ↦ elim (walk_of_added w) [
      | inl v ↦ inl (step a b old v)
      | inr (v, u) ↦ inr (step a b e v, u)
    ]
  ]

  added-IsAcyclic : IsAcyclic edges → ¬ Walk added h t → IsAcyclic added
  unfolding IsAcyclic
  added-IsAcyclic acyclic no_cycle = λ a b e w. elim (walk_of_added w) [
    | inl v ↦ elim (edge_of_added a b e) [
      | inl (from, to) ↦
          no_cycle (subst (λ x. Walk added h x) from (subst (λ x. Walk added x a) to w))
      | inr old ↦ acyclic a b old v
    ]
    | inr (v, u) ↦ no_cycle (walk_trans u (step a b e v))
  ]

-- The three ways in which the graph changes: a wait that is recorded and refused, one that stays,
-- and an edge that goes.
set_wait_detect-IsAcyclic :
    (edges : WaitForGraph) (txn h : ℕ)
    → IsAcyclic edges
    → (set_wait_detect edges txn h).1 ≡ false
    → IsAcyclic (set_wait_detect edges txn h).0
unfolding set_wait_detect added
set_wait_detect-IsAcyclic edges txn h acyclic none_found =
    added-IsAcyclic edges txn h acyclic λ w. cc ((reachable_iff _ h txn).1 w)

edge_of_cleared :
    (edges : WaitForGraph) (t h a b : ℕ)
    → contains b (next (clear (set_wait_detect edges t h).0 t) a) ≡ true
    → contains b (next edges a) ≡ true
unfolding set_wait_detect contains
edge_of_cleared edges t h a b e =
    ground (arith, next-clear (insert t (h ∷ []) edges) t a, next-insert edges t h a)

refused-IsAcyclic :
    (edges : WaitForGraph) (t h : ℕ)
    → IsAcyclic edges
    → IsAcyclic (clear (set_wait_detect edges t h).0 t)
refused-IsAcyclic edges t h = fewer-IsAcyclic edges _ (edge_of_cleared edges t h)

wait_for-IsAcyclic :
    (lm : LockManager) (txn h : ℕ) (expired : Bool)
    → IsAcyclic lm.graph
    → IsAcyclic (wait_for lm txn h expired).0.graph
unfolding wait_for IsAcyclic
wait_for-IsAcyclic lm txn h expired acyclic = elim (Bool-cases (set_wait_detect lm.graph txn h).1) [
  | inl cycle ↦ rw (cycle, wait_for) (refused-IsAcyclic lm.graph txn h acyclic)
  | inr free ↦ elim (Bool-cases expired) [
    | inl late ↦ rw (free, late, wait_for) (refused-IsAcyclic lm.graph txn h acyclic)
    | inr early ↦ rw (free, early, wait_for) (set_wait_detect-IsAcyclic lm.graph txn h acyclic free)
  ]
]

carry_out-IsAcyclic :
    (lm : LockManager) (txn : ℕ) (rid : RecordId) (expired : Bool) (d : Decision)
    → IsAcyclic lm.graph
    → IsAcyclic (carry_out lm txn rid expired d).0.graph
unfolding carry_out take_lock set_holder
carry_out-IsAcyclic lm txn rid expired acquired a = clear-IsAcyclic lm.graph txn a
carry_out-IsAcyclic lm txn rid expired reentrant a = a
carry_out-IsAcyclic lm txn rid expired (wait h) a = wait_for-IsAcyclic lm txn h expired a

graph-release_each :
    (lm : LockManager) (txn : ℕ) (rids : List RecordId)
    → (release_each lm txn rids).graph ≡ lm.graph
unfolding release_each release_one set_holder
graph-release_each lm txn [] = refl
graph-release_each lm txn (rid ∷ rids) =
    graph-release_each (release_one lm txn rid) txn rids ∙ ground arith

release_all-IsAcyclic :
    (lm : LockManager) (txn : ℕ) → IsAcyclic lm.graph → IsAcyclic (release_all lm txn).graph
unfolding release_all
release_all-IsAcyclic lm txn acyclic =
    rw (graph-release_each (record lm { held = remove txn lm.held }) txn (held_by lm txn))
      (clear-IsAcyclic lm.graph txn acyclic)

step-IsAcyclic :
    (lm : LockManager) (e : Event) → IsAcyclic lm.graph → IsAcyclic (Lock.step lm e).graph
unfolding Lock.step wait_timed_out acquire_round
step-IsAcyclic lm (round txn rid expired) a = carry_out-IsAcyclic lm txn rid expired _ a
step-IsAcyclic lm (timed_out txn) a = clear-IsAcyclic lm.graph txn a
step-IsAcyclic lm (released txn) a = release_all-IsAcyclic lm txn a

run-IsAcyclic :
    (lm : LockManager) (es : List Event) → IsAcyclic lm.graph → IsAcyclic (run lm es).graph
unfolding run
run-IsAcyclic lm [] a = a
run-IsAcyclic lm (e ∷ es) a = run-IsAcyclic (Lock.step lm e) es (step-IsAcyclic lm e a)

-- In no history of rounds, timeouts and releases, in any interleaving, does the wait-for graph have
-- a cycle: every wait that would close one is refused, and the others stay acyclic.
pub run-new-IsAcyclic :
    (config : LockConfig) (es : List Event) → IsAcyclic (run (new config) es).graph
unfolding new
run-new-IsAcyclic config es =
    run-IsAcyclic (new config) es (unfold IsAcyclic next lookup contains in λ a b e w. cc)

-- A round that must wait is refused as a deadlock exactly when the holder waits, directly or
-- through others, for the transaction that asks; the graph counts the new wait.
pub deadlock_iff :
    (lm : LockManager) (txn h : ℕ) (expired : Bool)
    → ((wait_for lm txn h expired).1 ≡ deadlock) ↔ Walk (set_wait_detect lm.graph txn h).0 h txn
unfolding wait_for set_wait_detect
deadlock_iff lm txn h expired =
    (λ e. (reachable_iff _ h txn).0 (ground arith), λ w. rw ((reachable_iff _ h txn).1 w) refl)
