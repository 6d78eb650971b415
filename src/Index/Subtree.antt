-- ===== src/Index/Subtree.antt =====
-- crates/prism-index/src/btree.rs: the trees that the pages of an index hold, as values with the
-- pages that they stand on, and what ties them to the pages.
use prism_db.Common.{ℕ, zero, suc, ◌≡◌, ◌≢◌, ◌⊎◌, refl, List, Option, none, some, All, inl, inr}
use prism_db.Common.Results.{ok}
use prism_db.Index.Node.{Key, Entry, Leaf, Internal, Node, leaf, internal, IsNode, IsPageId}
use prism_db.Index.Entries.{InRange}
use prism_db.Index.Bounds.{IsBounded}
use prism_db.Index.Forest.{Forest, last, more, separators, child_pages, gather, Every, Some, Within}
use prism_db.Index.Placing.{gather-InRange}
use prism_db.Index.Tree.{NodeStore}

pub record LeafAt : Type 0 where
  pub page : ℕ
  pub node : Leaf

pub record Branch (T : Type 0) : Type 0 where
  pub page : ℕ
  pub level : ℕ
  pub right_sibling : Option ℕ
  pub kids : Forest T

-- All leaves of a tree stand at one depth.
abbrev pub Subtree : ℕ → Type 0
Subtree zero = LeafAt
Subtree (suc h) = Branch (Subtree h)

abbrev pub page : (h : ℕ) → Subtree h → ℕ
page zero t = t.page
page (suc h) t = t.page

abbrev pub inner : (h : ℕ) → Branch (Subtree h) → Internal
inner h t = record {
  level = t.level;
  right_sibling = t.right_sibling;
  keys = separators t.kids;
  children = child_pages (page h) t.kids;
}

abbrev pub entries : (h : ℕ) → Subtree h → List Entry
entries zero t = t.node.entries
entries (suc h) t = gather (entries h) t.kids

-- Keys are sorted, and each lies between the separators that lead to it.
abbrev pub Bounded : (h : ℕ) → Option Key → Option Key → Subtree h → Type 0
Bounded zero lo hi t = IsBounded lo hi t.node.entries
Bounded (suc h) lo hi t = Within (Bounded h) lo hi t.kids

pub Bounded-InRange :
    (h : ℕ) (lo hi : Option Key) (t : Subtree h)
    → Bounded h lo hi t
    → All (InRange lo hi) (entries h t)
Bounded-InRange zero lo hi t b = b.1
Bounded-InRange (suc h) lo hi t b =
    gather-InRange (Bounded h) (entries h) (Bounded-InRange h) lo hi t.kids b

-- The pages of a subtree, and that it stands on no page twice.
abbrev pub Owns : (h : ℕ) → ℕ → Subtree h → Type 0
Owns zero p t = p ≡ t.page
Owns (suc h) p t = (p ≡ t.page) ⊎ Some (Owns h p) t.kids

abbrev pub Separate : {T : Type 0} → (ℕ → T → Type 0) → (T → Type 0) → Forest T → Type 0
Separate O A (last t) = A t
Separate O A (more t k f) = A t × Separate O A f × ((p : ℕ) → O p t → ¬ Some (O p) f)

abbrev pub Apart : (h : ℕ) → Subtree h → Type 0
Apart zero t = Unit {0}
Apart (suc h) t = (¬ Some (Owns h t.page) t.kids) × Separate (Owns h) (Apart h) t.kids

-- A leaf's right sibling is the leaf that follows it, or what follows the whole.
abbrev pub head : {T : Type 0} → Forest T → T
head (last t) = t
head (more t k f) = t

abbrev pub first_leaf : (h : ℕ) → Subtree h → ℕ
first_leaf zero t = t.page
first_leaf (suc h) t = first_leaf h (head t.kids)

abbrev pub Chain : {T : Type 0} → (Option ℕ → T → Type 0) → (T → ℕ) → Option ℕ → Forest T → Type 0
Chain C first next (last t) = C next t
Chain C first next (more t k f) = C (some (first (head f))) t × Chain C first next f

abbrev pub Chained : (h : ℕ) → Option ℕ → Subtree h → Type 0
Chained zero next t = t.node.right_sibling ≡ next
Chained (suc h) next t = Chain (Chained h) (first_leaf h) next t.kids

pub Every_frame :
    {T : Type 0} (P Q : T → Type 0) (O : ℕ → T → Type 0) (K : ℕ → Type 0) (f : Forest T)
    → ((t : T) → ((p : ℕ) → O p t → K p) → P t → Q t)
    → ((p : ℕ) → Some (O p) f → K p)
    → Every P f
    → Every Q f
Every_frame P Q O K (last t) step keep st = step t keep st
Every_frame P Q O K (more t k f) step keep (st, sf) =
    (step t (λ p o. keep p (inl o)) st, Every_frame P Q O K f step (λ p o. keep p (inr o)) sf)

module _ {S : Type 0} (store : NodeStore S) where
  abbrev pub Holds : S → ℕ → Node → Type 0
  Holds s p n = (store.read_node s p ≡ ok n) × IsNode n × IsPageId p

  abbrev pub Unread : S → ℕ → Type 0
  Unread s p = (n : Node) → store.read_node s p ≢ ok n

  -- The pages hold the nodes of the subtree.
  abbrev pub Stored : S → (h : ℕ) → Subtree h → Type 0
  Stored s zero t = Holds s t.page (leaf t.node)
  Stored s (suc h) t = Holds s t.page (internal (inner h t)) × Every (Stored s h) t.kids

  -- The tree of height `h` on the pages, with its entries in order.
  pub record IsTree (root : ℕ) (s : S) (h : ℕ) (es : List Entry) : Type 0 where
    pub top : Subtree h
    pub at_root : page h top ≡ root
    pub stored : Stored s h top
    pub bounded : Bounded h none none top
    pub apart : Apart h top
    pub chained : Chained h none top
    pub content : entries h top ≡ es

  pub Stored-page : (s : S) (h : ℕ) (t : Subtree h) → Stored s h t → IsPageId (page h t)
  Stored-page s zero t st = st.2
  Stored-page s (suc h) t st = st.0.2

  abbrev pub Keeps : S → S → ℕ → Type 0
  Keeps s s' p = (n : Node) → store.read_node s p ≡ ok n → store.read_node s' p ≡ ok n

  -- A change of other pages keeps a subtree.
  pub Stored_frame :
      (s s' : S) (h : ℕ) (t : Subtree h)
      → ((p : ℕ) → Owns h p t → Keeps s s' p)
      → Stored s h t
      → Stored s' h t
  Stored_frame s s' zero t keep st = (keep t.page refl (leaf t.node) st.0, st.1, st.2)
  Stored_frame s s' (suc h) t keep st = (
    (keep t.page (inl refl) (internal (inner h t)) st.0.0, st.0.1, st.0.2),
    Every_frame (Stored s h) (Stored s' h) (Owns h) (Keeps s s') t.kids (Stored_frame s s' h)
        (λ p o. keep p (inr o)) st.1,
  )

  -- The pages of a stored subtree can be read.
  pub Owns-Unread :
      (s : S) (h : ℕ) (t : Subtree h) (p : ℕ) → Stored s h t → Owns h p t → ¬ Unread s p
  Owns-Unread s zero t p st o u = u (leaf t.node) (rw o st.0)
  Owns-Unread s (suc h) t p st (inl o) u = u (internal (inner h t)) (rw o st.0.0)
  Owns-Unread s (suc h) t p st (inr o) u =
      some_owns s h t.kids p st.1 (λ i x y. Owns-Unread s h i p x y u) o
    where
      some_owns :
          (s : S) (h : ℕ) (f : Forest (Subtree h)) (p : ℕ)
          → Every (Stored s h) f
          → ((t : Subtree h) → Stored s h t → Owns h p t → ⊥)
          → Some (Owns h p) f
          → ⊥
      some_owns s h (last t) p st ih o = ih t st o
      some_owns s h (more t k f) p (st, sf) ih (inl o) = ih t st o
      some_owns s h (more t k f) p (st, sf) ih (inr o) = some_owns s h f p sf ih o
