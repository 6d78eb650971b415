-- ===== src/Index/Separation.antt =====
-- crates/prism-index/src/btree.rs: the pages and the leaf chain of an internal node's subtrees, when
-- a subtree is replaced.
use prism_db.Common.{ℕ, ◌≡◌, ◌⊎◌, refl, Option, some, if◌then◌else◌, Bool-cases, inl, inr, ◌∙◌}
use prism_db.Common.Order.{bytes_lt}
use prism_db.Index.Node.{Key}
use prism_db.Index.Forest.{
  Forest, last, more, Every, Some, join, at, put, Some-join, join-Some, at-Some, Some-put,
  Every-join,
}
use prism_db.Index.Subtree.{Separate, head, Chain, Every_frame}

module _ {T : Type 0} (O : ℕ → T → Type 0) (A : T → Type 0) where
  pub Separate-at : (k : Key) (f : Forest T) → Separate O A f → A (at k f)
  unfolding at
  Separate-at k (last t) s = s
  Separate-at k (more t j f) (a, s, d) = elim (Bool-cases (bytes_lt k j)) [
    | inl p ↦ rw p a
    | inr p ↦ rw p (Separate-at k f s)
  ]

  pub Separate-join :
      (g : Forest T) (k : Key) (f : Forest T)
      → Separate O A g
      → Separate O A f
      → ((p : ℕ) → Some (O p) g → ¬ Some (O p) f)
      → Separate O A (join g k f)
  Separate-join (last t) k f a s d = (a, s, d)
  Separate-join (more t j g) k f (a, sg, dg) s d = (
    a,
    Separate-join g k f sg s (λ p o. d p (inr o)),
    λ p o q. elim (Some-join (O p) g k f q) [ inl l ↦ dg p o l | inr r ↦ d p (inl o) r ],
  )

  pub join-Separate :
      (g : Forest T) (k : Key) (f : Forest T)
      → Separate O A (join g k f)
      → Separate O A g × Separate O A f × ((p : ℕ) → Some (O p) g → ¬ Some (O p) f)
  join-Separate (last t) k f s = s
  join-Separate (more t j g) k f (a, s, d) =
      let (sg, sf, dis) = join-Separate g k f s in
      (
        (a, sg, λ p o l. d p o (join-Some (O p) g k f (inl l))),
        sf,
        λ p o r. elim o [ inl l ↦ d p l (join-Some (O p) g k f (inr r)) | inr l ↦ dis p l r ],
      )

  -- The subtree on the way to a key gives way to others, which stand on its pages or on fresh ones.
  module _ (K : ℕ → Type 0) (k : Key) (g : Forest T) where
    pub Separate-put :
        (f : Forest T)
        → Separate O A f
        → Separate O A g
        → ((p : ℕ) → Some (O p) g → O p (at k f) ⊎ K p)
        → ((p : ℕ) → Some (O p) f → ¬ K p)
        → Separate O A (put k g f)
    unfolding at put
    Separate-put (last t) s sg own old = sg
    Separate-put (more t j f) (a, s, d) sg own old = elim (Bool-cases (bytes_lt k j)) [
      | inl p ↦ rw p (
          Separate-join g j f sg s
            (λ i o r. elim (own i o) [ inl l ↦ d i (rw p at l) r | inr u ↦ old i (inr r) u ]))
      | inr p ↦
          let own' : (i : ℕ) → Some (O i) g → O i (at k f) ⊎ K i = rw p at own in
          rw p (
            a,
            Separate-put f s sg own' (λ i o. old i (inr o)),
            λ i o q. elim (Some-put (O i) k g f q) [
              | inr r ↦ d i o r
              | inl l ↦ elim (own' i l) [
                | inl m ↦ d i o (at-Some (O i) k f m)
                | inr u ↦ old i (inl o) u
              ]
            ],
          )
    ]

    pub Every-put :
        (P Q : T → Type 0) (f : Forest T)
        → ((t : T) → ((p : ℕ) → O p t → ¬ O p (at k f)) → P t → Q t)
        → Separate O A f
        → Every P f
        → Every Q g
        → Every Q (put k g f)
    unfolding at put
    Every-put P Q (last t) step s e eg = eg
    Every-put P Q (more t j f) step (a, s, d) (e, es) eg = elim (Bool-cases (bytes_lt k j)) [
      | inl p ↦
          let step' : (u : T) → ((i : ℕ) → O i u → ¬ O i t) → P u → Q u = rw p at step in
          rw p
            (Every-join Q g j f eg (Every_frame P Q O (λ i. ¬ O i t) f step' (λ i r l. d i l r) es))
      | inr p ↦
          let step' : (u : T) → ((i : ℕ) → O i u → ¬ O i (at k f)) → P u → Q u = rw p at step in
          rw p (step' t (λ i o m. d i o (at-Some (O i) k f m)) e, Every-put P Q f step' s es eg)
    ]

module _ {T : Type 0} (C : Option ℕ → T → Type 0) (first : T → ℕ) where
  -- The leaf behind the subtree on the way to a key.
  unfoldable pub follow : Key → Option ℕ → Forest T → Option ℕ
  follow k next (last t) = next
  follow k next (more t j f) = if bytes_lt k j then some (first (head f)) else follow k next f

  pub Chain-at :
      (k : Key) (next : Option ℕ) (f : Forest T)
      → Chain C first next f
      → C (follow k next f) (at k f)
  unfolding at follow
  Chain-at k next (last t) c = c
  Chain-at k next (more t j f) (c, cs) = elim (Bool-cases (bytes_lt k j)) [
    | inl p ↦ rw p c
    | inr p ↦ rw p (Chain-at k next f cs)
  ]

  pub first-join :
      (g : Forest T) (k : Key) (f : Forest T) → first (head (join g k f)) ≡ first (head g)
  first-join (last t) k f = refl
  first-join (more t j g) k f = refl

  pub Chain-join :
      (next : Option ℕ) (g : Forest T) (k : Key) (f : Forest T)
      → Chain C first (some (first (head f))) g
      → Chain C first next f
      → Chain C first next (join g k f)
  Chain-join next (last t) k f c cs = (c, cs)
  Chain-join next (more t j g) k f (c, cg) cs =
      (rw (first-join g k f) c, Chain-join next g k f cg cs)

  pub join-Chain :
      (next : Option ℕ) (g : Forest T) (k : Key) (f : Forest T)
      → Chain C first next (join g k f)
      → Chain C first (some (first (head f))) g × Chain C first next f
  join-Chain next (last t) k f c = c
  join-Chain next (more t j g) k f (c, cs) =
      let (cg, cf) = join-Chain next g k f cs in ((rw (first-join g k f) at c, cg), cf)

  pub Chain-put :
      (k : Key) (next : Option ℕ) (g f : Forest T)
      → Chain C first next f
      → Chain C first (follow k next f) g
      → first (head g) ≡ first (at k f)
      → Chain C first next (put k g f) × (first (head (put k g f)) ≡ first (head f))
  unfolding at put follow
  Chain-put k next g (last t) c cg e = (cg, e)
  Chain-put k next g (more t j f) (c, cs) cg e = elim (Bool-cases (bytes_lt k j)) [
    | inl p ↦ rw p (Chain-join next g j f (rw p at cg) cs, first-join g j f ∙ (rw p at e))
    | inr p ↦
        let (cp, fp) = Chain-put k next g f cs (rw p at cg) (rw p at e) in
        rw p ((rw fp c, cp), refl)
  ]
