-- ===== src/Index/Search.antt =====
-- crates/prism-index/src/btree.rs: `search` and `delete` against the entries of the tree.
use prism_db.Common.{
  ℕ, zero, suc, ◌≡◌, ◌≢◌, ◌<◌, refl, ap, Bool, true, false, List, Option, none, some, arith, inl,
  inr, Bool-cases, sym,
}
use prism_db.Index.Node.{Key, Entry, leaf, IsEntry, route, position, stands_at}
use prism_db.Index.Entries.{find, erase, erase_absent, erase-append-Before, erase-append-After}
use prism_db.Index.Sorted.{leaf_get-find, stands_at-find, remove_at-erase}
use prism_db.Index.Bounds.{erase-IsBounded, erase-All}
use prism_db.Index.Forest.{last, at, put, low, high, route-at, Every-at}
use prism_db.Index.Placing.{Within-at, find-gather, child_pages-put_last}
use prism_db.Index.Separation.{Separate-at, Chain-at, follow}
use prism_db.Index.Outcome.{done, Ends, return, Ends_imp, Ends-settle}
use prism_db.Index.Tree.{NodeStore, BTree, search, search_from, delete, delete_from, delete_in_leaf}
use prism_db.Index.Writes.{write-Written}
use prism_db.Index.Grown.{Grown, Grown-put, Grown-leaf, Grown-same, Grown-above}
use prism_db.Index.Subtree.{
  Subtree, page, inner, entries, Bounded, Bounded-InRange, Stored, IsTree, Owns, Apart, Chained,
  first_leaf,
}

module _ {S : Type 0} (store : NodeStore S) (k : Key) where
  route_lem : (h : ℕ) (t : Subtree (suc h)) → route (inner h t) k ≡ some (page h (at k t.kids))
  unfolding route
  route_lem h t = route-at (page h) k t.kids

  search_from-find :
      (fuel h : ℕ) (lo hi : Option Key) (t : Subtree h) (s : S)
      → h < fuel
      → Stored store s h t
      → Bounded h lo hi t
      → search_from store fuel (page h t) k s ≡ done (find k (entries h t)) s
  unfolding search_from
  search_from-find zero h lo hi t s n st b = absurd (omega arith)
  search_from-find (suc fuel) zero lo hi t s n st b =
      rw (st.0, search_from) (ap (λ o. done o s) (leaf_get-find k t.node b.0))
  search_from-find (suc fuel) (suc h) lo hi t s n st b =
      rw
        (
          st.0.0,
          search_from,
          route_lem h t,
          find-gather (Bounded h) (entries h) (Bounded-InRange h) k lo hi t.kids b,
        )
        (search_from-find fuel h (low k lo t.kids) (high k hi t.kids) (at k t.kids) s (omega arith)
          (Every-at (Stored store s h) k t.kids st.1) (Within-at (Bounded h) k lo hi t.kids b))

pub search-find :
    {S : Type 0} (store : NodeStore S) (tree : BTree) (fuel h : ℕ) (s : S) (es : List Entry)
    (key : Key)
    → IsTree store tree.root s h es
    → h < fuel
    → search store tree fuel key s ≡ done (find key es) s
unfolding search
search-find store tree fuel h s es key r n =
    rw (← r.at_root, ← r.content)
      (search_from-find store key fuel h none none r.top s n r.stored r.bounded)

abbrev pub is_some : {A : Type 0} → Option A → Bool
is_some none = false
is_some (some a) = true

is_some_ne : {A : Type 0} (o : Option A) → o ≢ none → is_some o ≡ true
is_some_ne none h = absurd (h refl)
is_some_ne (some a) h = refl

module _ {S : Type 0} (store : NodeStore S) (k : Key) where
  -- What `delete` leaves of a subtree, and its answer.
  Deleted : S → (h : ℕ) → Option Key → Option Key → Option ℕ → Subtree h → Bool → S → Type 0
  Deleted s h lo hi next t b s' =
      (t' : Subtree h) × Grown store (erase k) s s' h lo hi next t (last t')
      × (b ≡ is_some (find k (entries h t)))

  delete_in_leaf-Deleted :
      (lo hi : Option Key) (next : Option ℕ) (t : Subtree zero) (s : S)
      → Stored store s zero t
      → Bounded zero lo hi t
      → Chained zero next t
      → Ends (delete_in_leaf store t.page t.node k s) (Deleted s zero lo hi next t)
  unfolding delete_in_leaf Deleted
  delete_in_leaf-Deleted lo hi next t s st b c =
      let es = t.node.entries in
      elim (Bool-cases (stands_at es (position es k) k)) [
        | inl found ↦
            let (e, ne) = remove_at-erase k es b.0 found in
            rw (found, e)
              (Ends-settle
                (store.write_page t.page
                  (leaf (record { right_sibling = t.node.right_sibling; entries = erase k es })) s)
                (λ u. return true) (Deleted s zero lo hi next t)
                (λ u w. (
                  record {
                    page = t.page;
                    node = record { right_sibling = t.node.right_sibling; entries = erase k es };
                  },
                  Grown-leaf store (erase k) s _ lo hi next t (erase k es) st c
                      (write-Written store s t.page
                        (leaf
                          (record { right_sibling = t.node.right_sibling; entries = erase k es }))
                        (st.1.0, erase-All IsEntry k es st.1.1) w)
                      (erase-All IsEntry k es st.1.1) (erase-IsBounded lo hi k es b) refl,
                  sym (is_some_ne (find k es) ne),
                )))
        | inr missing ↦
            let e = stands_at-find k es b.0 missing in
            rw missing (
              t,
              Grown-same store (erase k) s zero lo hi next t st b tt c (sym (erase_absent k es e)),
              rw e,
            )
      ]

  Deleted-above :
      (s s' : S) (h : ℕ) (lo hi : Option Key) (next : Option ℕ) (t : Subtree (suc h)) (d : Bool)
      → Stored store s (suc h) t
      → Bounded (suc h) lo hi t
      → Apart (suc h) t
      → Chained (suc h) next t
      → Deleted s h
          (low k lo t.kids)
          (high k hi t.kids)
          (follow (Chained h) (first_leaf h) k next t.kids)
          (at k t.kids)
          d
          s'
      → Deleted s (suc h) lo hi next t d s'
  unfolding Deleted
  Deleted-above s s' h lo hi next t d st b a c (t', g, e) =
      let r =
        Grown-put store (erase k) k (erase-append-Before k) (erase-append-After k) s s' h lo hi next
          t (last t') st b a c g in
      let (pages, keys) = child_pages-put_last (Bounded h) (page h) k t.kids t' g.top in
      (
        record t { kids = put k (last t') t.kids },
        Grown-above store (erase k) s s' h lo hi next t (put k (last t') t.kids) st r pages keys,
        rw (find-gather (Bounded h) (entries h) (Bounded-InRange h) k lo hi t.kids b) e,
      )

  delete_from-Deleted :
      (fuel h : ℕ) (lo hi : Option Key) (next : Option ℕ) (t : Subtree h) (s : S)
      → h < fuel
      → Stored store s h t
      → Bounded h lo hi t
      → Apart h t
      → Chained h next t
      → Ends (delete_from store fuel (page h t) k s) (Deleted s h lo hi next t)
  unfolding delete_from
  delete_from-Deleted zero h lo hi next t s n st b a c = absurd (omega arith)
  delete_from-Deleted (suc fuel) zero lo hi next t s n st b a c =
      rw (st.0, delete_from) (delete_in_leaf-Deleted lo hi next t s st b c)
  delete_from-Deleted (suc fuel) (suc h) lo hi next t s n st b a c =
      rw (st.0.0, delete_from, route_lem store k h t)
        (Ends_imp (delete_from store fuel (page h (at k t.kids)) k s) _
          (Deleted s (suc h) lo hi next t)
          (λ d s' x. Deleted-above s s' h lo hi next t d st b a c x)
          (delete_from-Deleted fuel h (low k lo t.kids) (high k hi t.kids)
            (follow (Chained h) (first_leaf h) k next t.kids) (at k t.kids) s (omega arith)
            (Every-at (Stored store s h) k t.kids st.1) (Within-at (Bounded h) k lo hi t.kids b)
            (Separate-at (Owns h) (Apart h) k t.kids a.1)
            (Chain-at (Chained h) (first_leaf h) k next t.kids c)))

-- When `delete` returns, the tree's entries are those before without the key's, and the answer is
-- whether there was one.
pub delete-erase :
    {S : Type 0} (store : NodeStore S) (tree : BTree) (fuel h : ℕ) (s : S) (es : List Entry)
    (key : Key)
    → IsTree store tree.root s h es
    → h < fuel
    → Ends
        (delete store tree fuel key s)
        (λ b s'. IsTree store tree.root s' h (erase key es) × (b ≡ is_some (find key es)))
unfolding delete Deleted
delete-erase store tree fuel h s es key r n =
    rw (← r.at_root, ← r.content)
      (Ends_imp (delete_from store fuel (page h r.top) key s)
        (Deleted store key s h none none none r.top) _
        (λ b s' (t, g, e). (
          record {
            top = t;
            at_root = g.top;
            stored = g.stored;
            bounded = g.bounded;
            apart = g.apart;
            chained = g.chained;
            content = g.content;
          },
          e,
        ))
        (delete_from-Deleted store key fuel h none none none r.top s n r.stored r.bounded r.apart
          r.chained))
