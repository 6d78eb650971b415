-- ===== src/Index/Move.antt =====
-- crates/prism-index/src/btree.rs: a subtree whose node moves to another page.
use prism_db.Common.{ℕ, zero, suc, ◌≡◌, ◌≢◌, ◌⊎◌, refl, Option, arith, inl, inr}
use prism_db.Common.Bytes.{IsU16}
use prism_db.Index.Node.{Key, Node, leaf, internal}
use prism_db.Index.Tree.{NodeStore, level_above}
use prism_db.Index.Subtree.{
  Subtree, page, inner, entries, Bounded, Stored, Owns, Unread, Keeps, Holds, Apart, Chained,
}
use prism_db.Index.Halves.{Every_others, unread_of}

unfoldable pub node_at : (h : ℕ) → Subtree h → Node
node_at zero t = leaf t.node
node_at (suc h) t = internal (inner h t)

unfoldable pub move : (h : ℕ) → ℕ → Subtree h → Subtree h
move zero q t = record t { page = q }
move (suc h) q t = record t { page = q }

pub level_above-IsU16 : (n : Node) → IsU16 (level_above n)
unfolding level_above
level_above-IsU16 (leaf l) = omega arith
level_above-IsU16 (internal n) = omega arith

pub move-Bounded :
    (h q : ℕ) (lo hi : Option Key) (t : Subtree h)
    → Bounded h lo hi t
    → Bounded h lo hi (move h q t)
unfolding move
move-Bounded zero q lo hi t b = b
move-Bounded (suc h) q lo hi t b = b

pub move-Chained :
    (h q : ℕ) (next : Option ℕ) (t : Subtree h) → Chained h next t → Chained h next (move h q t)
unfolding move
move-Chained zero q next t c = c
move-Chained (suc h) q next t c = c

pub entries-move : (h q : ℕ) (t : Subtree h) → entries h (move h q t) ≡ entries h t
unfolding move
entries-move zero q t = refl
entries-move (suc h) q t = refl

pub page-move : (h q : ℕ) (t : Subtree h) → page h (move h q t) ≡ q
unfolding move
page-move zero q t = refl
page-move (suc h) q t = refl

-- The pages of a subtree that has moved: the new one, and those below its old one.
pub Owns-move :
    (h q p : ℕ) (t : Subtree h)
    → Apart h t
    → Owns h p (move h q t)
    → (p ≡ q) ⊎ (Owns h p t × (p ≢ page h t))
unfolding move
Owns-move zero q p t a o = inl o
Owns-move (suc h) q p t a (inl o) = inl o
Owns-move (suc h) q p t a (inr o) = inr (inr o, λ e. a.0 (rw e at o))

pub Owns-page : (h : ℕ) (t : Subtree h) → Owns h (page h t) t
Owns-page zero t = refl
Owns-page (suc h) t = inl refl

module _ {S : Type 0} (store : NodeStore S) where
  pub Stored-node_at :
      (s : S) (h : ℕ) (t : Subtree h) → Stored store s h t → Holds store s (page h t) (node_at h t)
  unfolding node_at
  Stored-node_at s zero t st = st
  Stored-node_at s (suc h) t st = st.0

  pub move-Stored :
      (s s' : S) (h q : ℕ) (t : Subtree h)
      → Stored store s h t
      → Apart h t
      → Holds store s' q (node_at h t)
      → ((p : ℕ) → p ≢ page h t → Keeps store s s' p)
      → Stored store s' h (move h q t)
  unfolding move node_at
  move-Stored s s' zero q t st a there others = there
  move-Stored s s' (suc h) q t st a there others =
      (there, Every_others store s s' h t.kids t.page others a.0 st.1)

  pub move-Apart :
      (s : S) (h q : ℕ) (t : Subtree h)
      → Stored store s h t
      → Apart h t
      → Unread store s q
      → Apart h (move h q t)
  unfolding move
  move-Apart s zero q t st a u = a
  move-Apart s (suc h) q t st a u = (λ o. unread_of store s h t.kids q st.1 o u, a.1)
