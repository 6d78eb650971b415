-- ===== src/Index/BranchInsert.antt =====
-- crates/prism-index/src/btree.rs: `insert_into` at an internal node, once a child has split.
use prism_db.Common.{
  ℕ, zero, suc, ◌+◌, ◌/◌, ◌≡◌, ◌<◌, refl, ap, sym, ◌∙◌, ◌&&◌, List, [], ◌∷◌, ◌++◌, Option, none,
  some, length, arith, inl, inr, Bool-cases, leb, length-append, take-append, get_elem?,
  append_assoc,
}
use prism_db.Common.Order.{bytes_lt}
use prism_db.Core.Record.{RecordId}
use prism_db.Index.Node.{Key, Internal, Node, internal, split_off, internal_size, partition_point}
use prism_db.Index.Entries.{put_entry, Below, Over}
use prism_db.Index.Forest.{
  Forest, last, more, separators, child_pages, join, put, at, low, high, separators-join,
  child_pages-join, length-child_pages, join-Every,
}
use prism_db.Index.Placing.{separators-put}
use prism_db.Index.Outcome.{Ends, return, ◌>>=◌, Ends-settle}
use prism_db.Index.Tree.{NodeStore, BTree, absorb, split_internal, max_body, write_node, alloc_node}
use prism_db.Index.Subtree.{Subtree, page, inner, Bounded, Stored}
use prism_db.Index.Writes.{write-Written, alloc-write-SplitOver}
use prism_db.Index.Grown.{Regrown}
use prism_db.Index.LeafInsert.{Inserted, split_off-append}
use prism_db.Index.Halves.{
  insert_child-inner, split_forest, inner-IsNode, Grown-Written, Grown-halves, insert_at_pos,
}

get_elem?-append :
    {A : Type 0} (n : ℕ) (us : List A) (x : A) → length us ≡ n → get_elem? (us ++ x ∷ []) n ≡ some x
get_elem?-append zero [] x h = refl
get_elem?-append zero (u ∷ us) x h = absurd (omega arith)
get_elem?-append (suc n) [] x h = absurd (omega arith)
get_elem?-append (suc n) (u ∷ us) x h = get_elem?-append n us x (omega arith)

module _ {S : Type 0} (store : NodeStore S) (tree : BTree) where
  -- The vectors of a node that is split, as those of the two halves.
  split_internal_lem :
      (h : ℕ) (t : Subtree (suc h)) (f l : Forest (Subtree h)) (j : Key) (g : Forest (Subtree h))
      (s : S)
      → f ≡ join l j g
      → length (separators l) ≡ length (separators f) / 2
      → split_internal store tree t.page (inner h (record t { kids = f })) s
        ≡ (alloc_node store (internal (inner h (record t { kids = g }))) >>= λ q.
              write_node store t.page
                (internal (inner h (record t { right_sibling = some q; kids = l })))
              >>= λ _. return (some (j, q)))
            s
  unfolding split_internal
  split_internal_lem h t f l j g s e len =
      let n = length (separators f) / 2 in
      let keys : separators f ≡ (separators l ++ j ∷ []) ++ separators g =
        ap separators e
        ∙ (separators-join l j g ∙ sym (append_assoc (separators l) (j ∷ []) (separators g))) in
      let pages : child_pages (page h) f ≡ child_pages (page h) l ++ child_pages (page h) g =
        ap (child_pages (page h)) e ∙ child_pages-join (page h) l j g in
      let a : split_off (n + 1) (separators f) ≡ some (separators l ++ j ∷ [], separators g) =
        ap (split_off (n + 1)) keys
        ∙ split_off-append (n + 1) (separators l ++ j ∷ []) (separators g)
            (omega (arith, length-append (separators l) (j ∷ []))) in
      let b = get_elem?-append n (separators l) j len in
      let c : split_off (n + 1) (child_pages (page h) f)
          ≡ some (child_pages (page h) l, child_pages (page h) g) =
        ap (split_off (n + 1)) pages
        ∙ split_off-append (n + 1) (child_pages (page h) l) (child_pages (page h) g)
            (omega (arith, length-child_pages (page h) l)) in
      let d = take-append n (separators l) (j ∷ []) len in rw (a, b, c, d)

  module _ (k : Key) (rid : RecordId) where
    split_internal-Inserted :
        (s s' : S) (h : ℕ) (lo hi : Option Key) (next : Option ℕ) (t : Subtree (suc h))
        (f : Forest (Subtree h))
        → Stored store s (suc h) t
        → Regrown store (put_entry k rid) s s' h lo hi next t f
        → 0 < length (separators f)
        → Ends
            (split_internal store tree t.page (inner h (record t { kids = f })) s')
            (Inserted store k rid s (suc h) lo hi next t)
    split_internal-Inserted s s' h lo hi next t f st r pos =
        let (l, j, g, e, len) = split_forest (length (separators f) / 2) f (omega arith) in
        let right : Node = internal (inner h (record t { kids = g })) in
        let left : ℕ → Node =
          λ q. internal (inner h (record t { right_sibling = some q; kids = l })) in
        let r' = rw e at r in
        let (el, eg) = join-Every (Stored store s' h) l j g r'.stored in
        rw (split_internal_lem h t f l j g s' e len) (
          Ends-settle (store.alloc_page right s')
            (λ q. write_node store t.page (left q) >>= λ _. return (some (j, q)))
            (Inserted store k rid s (suc h) lo hi next t)
            (λ q a.
              Ends-settle (store.write_page t.page (left q) (store.alloc_page right s').0)
                (λ _. return (some (j, q))) (Inserted store k rid s (suc h) lo hi next t)
                (λ _ w. inr (
                  record t { right_sibling = some q; kids = l },
                  j,
                  record t { page = q; kids = g },
                  refl,
                  Grown-halves store (put_entry k rid) s s' _ h lo hi next t l j g q st r' (
                      alloc-write-SplitOver store s' t.page q (internal (inner h t)) (left q) right
                        r.same
                        (inner-IsNode store s' h (record t { kids = g }) st.0.1.0 st.0.1.1 eg) a
                        (inner-IsNode store s' h (record t { right_sibling = some q; kids = l })
                          st.0.1.0 (store.alloc_id right s' q a) el)
                        w),
                ))))

    -- A node whose child has split, from its child's outcome.
    pub absorb-Inserted :
        (s s' : S) (h : ℕ) (lo hi : Option Key) (next : Option ℕ) (t : Subtree (suc h))
        (u v : Subtree h) (j : Key)
        → Stored store s (suc h) t
        → Bounded (suc h) lo hi t
        → page h u ≡ page h (at k t.kids)
        → Over (low k lo t.kids) j
        → Below j (high k hi t.kids)
        → Regrown store (put_entry k rid) s s' h lo hi next t (put k (more u j (last v)) t.kids)
        → Ends
            (absorb store tree t.page (inner h t) (some (j, page h v)) s')
            (Inserted store k rid s (suc h) lo hi next t)
    unfolding absorb
    absorb-Inserted s s' h lo hi next t u v j st b e o bl r =
        let f = put k (more u j (last v)) t.kids in
        let n : Internal = inner h (record t { kids = f }) in
        let small = leb (length (separators f)) tree.order && leb (internal_size n) max_body in
        rw (insert_child-inner h k lo hi t u v j e b o bl) (elim (Bool-cases small) [
          | inl fits ↦ rw fits (
              Ends-settle (store.write_page t.page (internal n) s') (λ _. return none)
                (Inserted store k rid s (suc h) lo hi next t)
                (λ _ w. inl (
                  record t { kids = f },
                  refl,
                  Grown-Written store (put_entry k rid) s s' _ h lo hi next t f st r (
                      write-Written store s' t.page (internal n)
                        (inner-IsNode store s' h (record t { kids = f }) st.0.1.0 st.0.1.1 r.stored)
                        w),
                )))
          | inr full ↦ rw full (
              split_internal-Inserted s s' h lo hi next t f st r (
                rw (separators-put (Bounded h) k lo hi t.kids u v j b o bl) (
                  insert_at_pos (partition_point (λ (i : Key). bytes_lt i j) (separators t.kids)) j
                    (separators t.kids))))
        ])
