-- ===== src/Core/Lock/Walks.antt =====
-- crates/prism-core/src/lock.rs: `reachable` against the walks along the edges of the wait-for
-- graph, and its fuel.
use prism_db.Common.{
  ℕ, zero, suc, ◌+◌, ◌≤◌, ◌≡◌, ◌≢◌, ◌↔◌, inl, inr, ◌∙◌, sym, refl, ap, Bool, true, false, ◌||◌,
  List, [], ◌∷◌, ◌++◌, some, length, length-append, if◌then◌else◌, ◌==◌, arith, Bool-cases, ==_iff,
}
use prism_db.Common.Maps.{lookup, contains}
use prism_db.Core.Lock.{WaitForGraph, next, reach_loop, edge_count, reachable}

-- `a` waits for `b`, directly or through others (or is `b`).
pub data Walk (edges : WaitForGraph) : ℕ → ℕ → Type 0 where
  here : (a : ℕ) → Walk edges a a
  step : (a b : ℕ) {c : ℕ} → contains b (next edges a) ≡ true → Walk edges b c → Walk edges a c

pub walk_trans :
    {edges : WaitForGraph} {a b c : ℕ} → Walk edges a b → Walk edges b c → Walk edges a c
walk_trans (here a) w = w
walk_trans (step a b e v) w = step a b e (walk_trans v w)

pub contains-append :
    (k : ℕ) (xs ys : List ℕ) → contains k (xs ++ ys) ≡ (contains k xs || contains k ys)
unfolding contains
contains-append k [] ys = refl
contains-append k (x ∷ xs) ys = ground (arith, contains-append k xs ys)

-- The edges that leave transactions not seen yet.
weight : List ℕ → WaitForGraph → ℕ
weight seen [] = 0
weight seen ((k, ns) ∷ m) = if contains k seen then weight seen m else length ns + weight seen m

weight_mono :
    (seen : List ℕ) (n : ℕ) (edges : WaitForGraph) → weight (n ∷ seen) edges ≤ weight seen edges
unfolding weight contains
weight_mono seen n [] = omega arith
weight_mono seen n ((k, ns) ∷ m) = ground (arith, weight_mono seen n m)

weight_mark :
    (seen : List ℕ) (n : ℕ) (edges : WaitForGraph)
    → contains n seen ≡ false
    → weight (n ∷ seen) edges + length (next edges n) ≤ weight seen edges
unfolding weight contains next lookup
weight_mark seen n [] h = omega arith
weight_mark seen n ((k, ns) ∷ m) h = ground (arith, weight_mark seen n m, weight_mono seen n m)

weight_start : (edges : WaitForGraph) → weight [] edges ≡ edge_count edges
unfolding weight edge_count contains
weight_start [] = refl
weight_start ((k, ns) ∷ m) = ground (arith, weight_start m)

-- The three ways in which a round of the loop goes on.
module _ (fuel : ℕ) (edges : WaitForGraph) (target node : ℕ) (stack seen : List ℕ) where
  loop_found :
      (node == target) ≡ true → reach_loop (suc fuel) edges target (node ∷ stack) seen ≡ some true
  unfolding reach_loop
  loop_found e = rw (e, reach_loop)

  loop_skip :
      (node == target) ≡ false
      → contains node seen ≡ true
      → reach_loop (suc fuel) edges target (node ∷ stack) seen
        ≡ reach_loop fuel edges target stack seen
  unfolding reach_loop
  loop_skip e s = rw (e, s, reach_loop)

  loop_expand :
      (node == target) ≡ false
      → contains node seen ≡ false
      → reach_loop (suc fuel) edges target (node ∷ stack) seen
        ≡ reach_loop fuel edges target (next edges node ++ stack) (node ∷ seen)
  unfolding reach_loop
  loop_expand e s = rw (e, s, reach_loop)

-- The loop ends before its fuel does.
reach_loop_total :
    (fuel : ℕ) (edges : WaitForGraph) (target : ℕ) (stack seen : List ℕ)
    → length stack + weight seen edges ≤ fuel
    → (b : Bool) × (reach_loop fuel edges target stack seen ≡ some b)
reach_loop_total fuel edges target [] seen h = (false, unfold reach_loop in refl)
reach_loop_total zero edges target (node ∷ stack) seen h = absurd (omega arith)
reach_loop_total (suc fuel) edges target (node ∷ stack) seen h =
    elim (Bool-cases (node == target)) [
      | inl e ↦ (true, loop_found fuel edges target node stack seen e)
      | inr e ↦ elim (Bool-cases (contains node seen)) [
        | inl s ↦
            let (b, r) = reach_loop_total fuel edges target stack seen (omega arith) in
            (b, loop_skip fuel edges target node stack seen e s ∙ r)
        | inr s ↦
            let (b, r) =
              reach_loop_total fuel edges target (next edges node ++ stack) (node ∷ seen) (
                omega
                  (arith, length-append (next edges node) stack, weight_mark seen node edges s)) in
            (b, loop_expand fuel edges target node stack seen e s ∙ r)
      ]
    ]

-- Some entry of the stack waits for the target.
AnyWalk : WaitForGraph → ℕ → List ℕ → Type 0
AnyWalk edges target stack = (s : ℕ) × (contains s stack ≡ true) × Walk edges s target

AnyWalk-weaken :
    (edges : WaitForGraph) (target node : ℕ) (stack : List ℕ)
    → AnyWalk edges target stack
    → AnyWalk edges target (node ∷ stack)
unfolding AnyWalk contains
AnyWalk-weaken edges target node stack (s, m, w) = (s, ground arith, w)

AnyWalk-expand :
    (edges : WaitForGraph) (target node : ℕ) (stack : List ℕ)
    → AnyWalk edges target (next edges node ++ stack)
    → AnyWalk edges target (node ∷ stack)
unfolding AnyWalk contains
AnyWalk-expand edges target node stack (s, m, w) =
    elim (Bool-cases (contains s (next edges node))) [
      | inl here_next ↦ (node, ground arith, step node s here_next w)
      | inr elsewhere ↦ (s, ground (arith, contains-append s (next edges node) stack), w)
    ]

-- A positive answer has a walk from the stack to show for it.
reach_loop_sound :
    (fuel : ℕ) (edges : WaitForGraph) (target : ℕ) (stack seen : List ℕ)
    → reach_loop fuel edges target stack seen ≡ some true
    → AnyWalk edges target stack
reach_loop_sound fuel edges target [] seen h = unfold reach_loop in cc
reach_loop_sound zero edges target (node ∷ stack) seen h = unfold reach_loop in cc
reach_loop_sound (suc fuel) edges target (node ∷ stack) seen h =
    elim (Bool-cases (node == target)) [
      | inl e ↦ found e
      | inr e ↦ elim (Bool-cases (contains node seen)) [
        | inl s ↦ AnyWalk-weaken edges target node stack (
            reach_loop_sound fuel edges target stack seen
              (sym (loop_skip fuel edges target node stack seen e s) ∙ h))
        | inr s ↦ AnyWalk-expand edges target node stack (
            reach_loop_sound fuel edges target (next edges node ++ stack) (node ∷ seen)
              (sym (loop_expand fuel edges target node stack seen e s) ∙ h))
      ]
    ]
  where
    found : (node == target) ≡ true → AnyWalk edges target (node ∷ stack)
    found e =
        unfold AnyWalk contains in (node, ground arith, rw ((==_iff node target).0 e) (here target))

-- What was seen is not the target, and its successors are seen or wait on the stack.
IsClosed : WaitForGraph → ℕ → List ℕ → List ℕ → Type 0
IsClosed edges target stack seen =
    (u v : ℕ)
    → contains u seen ≡ true
    → (u ≢ target)
      × (contains v (next edges u) ≡ true → (contains v seen || contains v stack) ≡ true)

closed_next :
    (edges : WaitForGraph) (target : ℕ) (seen : List ℕ) (a b : ℕ)
    → IsClosed edges target [] seen
    → contains a seen ≡ true
    → contains b (next edges a) ≡ true
    → contains b seen ≡ true
unfolding IsClosed contains
closed_next edges target seen a b c m e = ground (arith, (c a b m).1 e)

closed_walk :
    (edges : WaitForGraph) (target : ℕ) (seen : List ℕ) {a b : ℕ}
    → IsClosed edges target [] seen
    → contains a seen ≡ true
    → Walk edges a b
    → contains b seen ≡ true
closed_walk edges target seen c m (here a) = m
closed_walk edges target seen c m (step a b e w) =
    closed_walk edges target seen c (closed_next edges target seen a b c m e) w

IsClosed-skip :
    (edges : WaitForGraph) (target node : ℕ) (stack seen : List ℕ)
    → contains node seen ≡ true
    → IsClosed edges target (node ∷ stack) seen
    → IsClosed edges target stack seen
unfolding IsClosed contains
IsClosed-skip edges target node stack seen m c =
    λ u v h. ((c u v h).0, λ e. ground (arith, (c u v h).1 e))

IsClosed-expand :
    (edges : WaitForGraph) (target node : ℕ) (stack seen : List ℕ)
    → (node == target) ≡ false
    → IsClosed edges target (node ∷ stack) seen
    → IsClosed edges target (next edges node ++ stack) (node ∷ seen)
unfolding IsClosed contains
IsClosed-expand edges target node stack seen ne c = λ u v h. elim (Bool-cases (contains u seen)) [
  | inl old ↦ (
    (c u v old).0,
    λ e. ground (arith, (c u v old).1 e, contains-append v (next edges node) stack),
  )
  | inr new ↦ (
    λ t. ground arith,
    λ e.
        let same : node ≡ u = ground arith in
        ground (
          arith,
          contains-append v (next edges node) stack,
          ap (λ n. contains v (next edges n)) same,
        ),
  )
]

member_skip :
    (s node : ℕ) (stack seen : List ℕ)
    → contains node seen ≡ true
    → (contains s seen || contains s (node ∷ stack)) ≡ true
    → (contains s seen || contains s stack) ≡ true
unfolding contains
member_skip s node stack seen old m = elim (Bool-cases (node == s)) [
  | inl e ↦ let same : node ≡ s = ground arith in ground (arith, ap (λ n. contains n seen) same)
  | inr e ↦ ground arith
]

member_expand :
    (s node : ℕ) (more stack seen : List ℕ)
    → (contains s seen || contains s (node ∷ stack)) ≡ true
    → (contains s (node ∷ seen) || contains s (more ++ stack)) ≡ true
unfolding contains
member_expand s node more stack seen m = ground (arith, contains-append s more stack)

-- A negative answer leaves no walk from what is on the stack or was seen.
reach_loop_complete :
    (fuel : ℕ) (edges : WaitForGraph) (target : ℕ) (stack seen : List ℕ) (s : ℕ)
    → IsClosed edges target stack seen
    → (contains s seen || contains s stack) ≡ true
    → reach_loop fuel edges target stack seen ≡ some false
    → ¬ Walk edges s target
unfolding IsClosed
reach_loop_complete fuel edges target [] seen s c m h = λ w.
    let reached = closed_walk edges target seen c (in_seen m) w in (c target target reached).0 refl
  where
    in_seen : (contains s seen || contains s []) ≡ true → contains s seen ≡ true
    in_seen m = unfold contains in ground arith
reach_loop_complete zero edges target (node ∷ stack) seen s c m h = unfold reach_loop in cc
reach_loop_complete (suc fuel) edges target (node ∷ stack) seen s c m h =
    elim (Bool-cases (node == target)) [
      | inl e ↦ cc (loop_found fuel edges target node stack seen e)
      | inr e ↦ elim (Bool-cases (contains node seen)) [
        | inl old ↦
            reach_loop_complete fuel edges target stack seen s
              (IsClosed-skip edges target node stack seen old c)
              (member_skip s node stack seen old m)
              (sym (loop_skip fuel edges target node stack seen e old) ∙ h)
        | inr new ↦
            reach_loop_complete fuel edges target (next edges node ++ stack) (node ∷ seen) s
              (IsClosed-expand edges target node stack seen e c)
              (member_expand s node (next edges node) stack seen m)
              (sym (loop_expand fuel edges target node stack seen e new) ∙ h)
      ]
    ]

start-IsClosed : (edges : WaitForGraph) (target start : ℕ) → IsClosed edges target (start ∷ []) []
unfolding IsClosed contains
start-IsClosed edges target start = λ u v h. cc

-- The loop's answer is that of `reachable`: the fuel that it is given never runs out.
reachable_answer :
    (edges : WaitForGraph) (start target : ℕ)
    → reach_loop (1 + edge_count edges) edges target (start ∷ []) []
      ≡ some (reachable edges start target)
unfolding reachable
reachable_answer edges start target =
    let (b, r) =
      reach_loop_total (1 + edge_count edges) edges target (start ∷ []) []
        (omega (arith, weight_start edges)) in
    rw (r, reachable)

only_start :
    (edges : WaitForGraph) (start target : ℕ)
    → AnyWalk edges target (start ∷ [])
    → Walk edges start target
unfolding AnyWalk contains
only_start edges start target (s, m, w) = let same : start ≡ s = ground arith in rw same w

-- The search from `start` answers true exactly when `start` waits for `target` along the edges of
-- the graph (or is `target`).
pub reachable_iff :
    (edges : WaitForGraph) (start target : ℕ)
    → (reachable edges start target ≡ true) ↔ Walk edges start target
reachable_iff edges start target = (
  λ h. only_start edges start target (
      reach_loop_sound (1 + edge_count edges) edges target (start ∷ []) []
        (reachable_answer edges start target ∙ ap some h)),
  λ w. elim (Bool-cases (reachable edges start target)) [
    | inl e ↦ e
    | inr e ↦ absurd (
        reach_loop_complete (1 + edge_count edges) edges target (start ∷ []) [] start
          (start-IsClosed edges target start) (unfold contains in ground arith)
          (reachable_answer edges start target ∙ ap some e) w)
  ],
)
