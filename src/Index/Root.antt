-- ===== src/Index/Root.antt =====
-- crates/prism-index/src/btree.rs: the end of `insert`, where a root that has split moves to a new
-- page under a new root on its old one.
use prism_db.Common.{
  ℕ, suc, ◌≡◌, ◌≢◌, ◌<◌, ◌≤◌, refl, ◌∙◌, List, [], ◌∷◌, ◌++◌, none, some, arith, inl, inr, subst,
}
use prism_db.Common.Bytes.{IsU16}
use prism_db.Core.Record.{RecordId}
use prism_db.Index.Node.{Key, Entry, Node, internal, IsNode, IsEntry}
use prism_db.Index.Entries.{put_entry}
use prism_db.Index.Forest.{last, more}
use prism_db.Index.Outcome.{Ends, Ends-bind, Ends-settle, Ends-settle_last}
use prism_db.Index.Tree.{
  NodeStore, BTree, Split, insert_into, insert, grow_root, level_above, write_node,
}
use prism_db.Index.Subtree.{
  Subtree, page, entries, Bounded, Stored, Stored_frame, Owns, Owns-Unread, Apart, Chained,
  first_leaf, IsTree,
}
use prism_db.Index.Writes.{SplitOver, alloc-write-SplitOver}
use prism_db.Index.LeafInsert.{Inserted}
use prism_db.Index.Insert.{insert_into-Inserted}
use prism_db.Index.Move.{
  node_at, move, level_above-IsU16, move-Bounded, move-Chained, entries-move, page-move, Owns-move,
  Owns-page, Stored-node_at, move-Stored, move-Apart,
}

module _ {S : Type 0} (store : NodeStore S) where
  parent_node : ℕ → Key → ℕ → ℕ → Node
  parent_node level j left right =
      internal (record {
        level = level;
        right_sibling = none;
        keys = j ∷ [];
        children = left ∷ right ∷ [];
      })

  -- The tree over the two halves of a root.
  parent-IsTree :
      (s s' : S) (h : ℕ) (u v : Subtree h) (j : Key) (q level : ℕ)
      → Stored store s h u
      → Stored store s h v
      → Apart h u
      → Apart h v
      → ((p : ℕ) → Owns h p u → ¬ Owns h p v)
      → Chained h (some (first_leaf h v)) u
      → Chained h none v
      → Bounded h none (some j) u
      → Bounded h (some j) none v
      → IsU16 level
      → SplitOver store s s' (page h u) (parent_node level j q (page h v)) q (node_at h u)
      → IsTree store (page h u) s' (suc h) (entries h u ++ entries h v)
  unfolding parent_node
  parent-IsTree s s' h u v j q level su sv au av dis cu cv bu bv lv w =
      let hu = Stored-node_at store s h u su in
      let hv = Stored-node_at store s h v sv in
      let not_v : ¬ Owns h (page h u) v = dis (page h u) (Owns-page h u) in
      let ne : page h u ≢ q = λ e. w.unread (node_at h u) (rw (← e) hu.0) in
      record {
        top = record {
          page = page h u;
          level = level;
          right_sibling = none;
          kids = more (move h q u) j (last v);
        };
        at_root = refl;
        stored = (
          (
            rw (page-move h q u) w.here,
            (lv, tt, rw (page-move h q u) (w.new_page.1, (hv.2.1, tt)), refl),
            hu.2,
          ),
          (
            move-Stored store s s' h q u su au (w.there, hu.1, w.new_page) w.others,
            Stored_frame store s s' h v (λ p o. w.others p (λ e. not_v (rw e at o))) sv,
          ),
        );
        bounded = (tt, tt, move-Bounded h q none (some j) u bu, bv);
        apart = (
          λ o. elim o [
            | inl i ↦ elim (Owns-move h q (page h u) u au i) [ inl e ↦ ne e | inr x ↦ x.1 refl ]
            | inr i ↦ not_v i
          ],
          (
            move-Apart store s h q u su au w.unread,
            av,
            λ p i o. elim (Owns-move h q p u au i) [
              | inl e ↦ Owns-Unread store s h v q sv (rw e at o) w.unread
              | inr x ↦ dis p x.0 o
            ],
          ),
        );
        chained = (move-Chained h q (some (first_leaf h v)) u cu, cv);
        content = rw (entries-move h q u);
      }

module _ {S : Type 0} (store : NodeStore S) (tree : BTree) (k : Key) (rid : RecordId) where
  -- What `insert` leaves, from what `insert_into` leaves of the root.
  grow_root-IsTree :
      (s s' : S) (h : ℕ) (t : Subtree h) (r : Split)
      → page h t ≡ tree.root
      → Inserted store k rid s h none none none t r s'
      → Ends (grow_root store tree r s') (λ _ s''.
        (h' : ℕ) × (h' ≤ suc h) × IsTree store tree.root s'' h' (put_entry k rid (entries h t)))
  unfolding grow_root parent_node
  grow_root-IsTree s s' h t r at (inl (t', e, g)) = rw e (
    h,
    omega arith,
    record {
      top = t';
      at_root = g.top ∙ at;
      stored = g.stored;
      bounded = g.bounded;
      apart = g.apart;
      chained = g.chained;
      content = g.content;
    },
  )
  grow_root-IsTree s s' h t r at (inr (u, j, v, e, g)) =
      let root : page h u ≡ tree.root = g.top ∙ at in
      let hu = Stored-node_at store s' h u g.stored.0 in
      let hv = Stored-node_at store s' h v g.stored.1 in
      let left = node_at h u in
      let level = level_above left in
      let parent : ℕ → Node = λ q. parent_node store level j q (page h v) in
      rw (e, ← root, hu.0)
        (Ends-settle (store.alloc_page left s') (λ q. write_node store (page h u) (parent q))
          (λ _ s''.
            (h' : ℕ) × (h' ≤ suc h)
            × IsTree store (page h u) s'' h' (put_entry k rid (entries h t)))
          (λ q a.
            Ends-settle_last (store.write_page (page h u) (parent q) (store.alloc_page left s').0)
              (λ _ s''.
                (h' : ℕ) × (h' ≤ suc h)
                × IsTree store (page h u) s'' h' (put_entry k rid (entries h t)))
              (λ _ w.
                let valid : IsNode (parent q) = (
                  level_above-IsU16 left,
                  tt,
                  ((store.alloc_id left s' q a).1, (hv.2.1, tt)),
                  refl,
                ) in
                let over =
                  alloc-write-SplitOver store s' (page h u) q left (parent q) left hu.0 hu.1 a valid
                    w in
                (
                  suc h,
                  omega arith,
                  rw g.content at (
                      parent-IsTree store s' _ h u v j q level g.stored.0 g.stored.1 g.apart.0
                        g.apart.1 g.apart.2 g.chained.0 g.chained.1 g.bounded.2 g.bounded.3
                        (level_above-IsU16 left) over),
                ))))

-- When `insert` returns, the pages hold a tree of the entries before with the new one put in.
pub insert-put_entry :
    {S : Type 0} (store : NodeStore S) (tree : BTree) (fuel h : ℕ) (s : S) (es : List Entry)
    (key : Key) (rid : RecordId)
    → 2 ≤ tree.order
    → IsEntry (key, rid)
    → IsTree store tree.root s h es
    → h < fuel
    → Ends
        (insert store tree fuel key rid s)
        (λ _ s'. (h' : ℕ) × (h' ≤ suc h) × IsTree store tree.root s' h' (put_entry key rid es))
unfolding insert
insert-put_entry store tree fuel h s es key rid wide valid r n = rw (← r.content) (
    Ends-bind (insert_into store tree fuel tree.root key rid s) (grow_root store tree)
      (Inserted store key rid s h none none none r.top)
      (λ _ s'.
        (h' : ℕ) × (h' ≤ suc h)
        × IsTree store tree.root s' h' (put_entry key rid (entries h r.top)))
      (subst
        (λ p.
          Ends (insert_into store tree fuel p key rid s)
            (Inserted store key rid s h none none none r.top))
        r.at_root
        (insert_into-Inserted store tree wide key rid valid fuel h none none none r.top s n r.stored
          r.bounded r.apart r.chained tt tt))
      (λ x s' i. grow_root-IsTree store tree key rid s s' h r.top x r.at_root i))
