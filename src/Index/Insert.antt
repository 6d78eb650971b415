-- ===== src/Index/Insert.antt =====
-- crates/prism-index/src/btree.rs: `insert` against the entries of the tree.
use prism_db.Common.{ℕ, zero, suc, ◌<◌, ◌≤◌, refl, Option, arith, inl, inr}
use prism_db.Core.Record.{RecordId}
use prism_db.Index.Node.{Key, IsEntry, route}
use prism_db.Index.Entries.{
  put_entry, put_entry-append-Before, put_entry-append-After, AtLeast, Below,
}
use prism_db.Index.Forest.{last, more, put, at, low, high, route-at, Every-at}
use prism_db.Index.Placing.{Within-at, low-AtLeast, high-Below, child_pages-put_last}
use prism_db.Index.Separation.{Separate-at, Chain-at, follow}
use prism_db.Index.Outcome.{Ends, Ends-bind}
use prism_db.Index.Tree.{NodeStore, BTree, Split, insert_into, absorb}
use prism_db.Index.Subtree.{Subtree, page, inner, Bounded, Stored, Owns, Apart, Chained, first_leaf}
use prism_db.Index.Grown.{Grown-put, Grown-above}
use prism_db.Index.LeafInsert.{Inserted, insert_leaf-Inserted}
use prism_db.Index.BranchInsert.{absorb-Inserted}

module _ {S : Type 0} (store : NodeStore S) (tree : BTree) (wide : 2 ≤ tree.order) (k : Key)
    (rid : RecordId) (valid : IsEntry (k, rid)) where
  after_child :
      (s s' : S) (h : ℕ) (lo hi : Option Key) (next : Option ℕ) (t : Subtree (suc h)) (r : Split)
      → Stored store s (suc h) t
      → Bounded (suc h) lo hi t
      → Apart (suc h) t
      → Chained (suc h) next t
      → Inserted store k rid s h
          (low k lo t.kids)
          (high k hi t.kids)
          (follow (Chained h) (first_leaf h) k next t.kids)
          (at k t.kids)
          r
          s'
      → Ends
          (absorb store tree t.page (inner h t) r s')
          (Inserted store k rid s (suc h) lo hi next t)
  unfolding absorb
  after_child s s' h lo hi next t r st b a c (inl (t', e, g)) =
      let re =
        Grown-put store (put_entry k rid) k (put_entry-append-Before k rid)
          (put_entry-append-After k rid) s s' h lo hi next t (last t') st b a c g in
      let (pages, keys) = child_pages-put_last (Bounded h) (page h) k t.kids t' g.top in
      rw e (
        inl (
          record t { kids = put k (last t') t.kids },
          refl,
          Grown-above store (put_entry k rid) s s' h lo hi next t (put k (last t') t.kids) st re
              pages keys,
        ))
  after_child s s' h lo hi next t r st b a c (inr (u, j, v, e, g)) =
      let re =
        Grown-put store (put_entry k rid) k (put_entry-append-Before k rid)
          (put_entry-append-After k rid) s s' h lo hi next t (more u j (last v)) st b a c g in
      rw e (
        absorb-Inserted store tree k rid s s' h lo hi next t u v j st b g.top g.bounded.0
          g.bounded.1 re)

  pub insert_into-Inserted :
      (fuel h : ℕ) (lo hi : Option Key) (next : Option ℕ) (t : Subtree h) (s : S)
      → h < fuel
      → Stored store s h t
      → Bounded h lo hi t
      → Apart h t
      → Chained h next t
      → AtLeast lo k
      → Below k hi
      → Ends
          (insert_into store tree fuel (page h t) k rid s)
          (Inserted store k rid s h lo hi next t)
  unfolding insert_into route
  insert_into-Inserted zero h lo hi next t s n st b a c al bl = absurd (omega arith)
  insert_into-Inserted (suc fuel) zero lo hi next t s n st b a c al bl =
      rw (st.0, insert_into)
        (insert_leaf-Inserted store tree wide k rid s lo hi next t st b c valid al bl)
  insert_into-Inserted (suc fuel) (suc h) lo hi next t s n st b a c al bl =
      rw (st.0.0, insert_into, route-at (page h) k t.kids)
        (Ends-bind (insert_into store tree fuel (page h (at k t.kids)) k rid s)
          (absorb store tree t.page (inner h t)) _ (Inserted store k rid s (suc h) lo hi next t)
          (insert_into-Inserted fuel h (low k lo t.kids) (high k hi t.kids)
            (follow (Chained h) (first_leaf h) k next t.kids) (at k t.kids) s (omega arith)
            (Every-at (Stored store s h) k t.kids st.1) (Within-at (Bounded h) k lo hi t.kids b)
            (Separate-at (Owns h) (Apart h) k t.kids a.1)
            (Chain-at (Chained h) (first_leaf h) k next t.kids c) (low-AtLeast k lo t.kids al)
            (high-Below k hi t.kids bl))
          (λ r s' x. after_child s s' h lo hi next t r st b a c x))
