-- ===== src/Index/Halves.antt =====
-- crates/prism-index/src/btree.rs: an internal node whose child has split, and its halves.
use prism_db.Common.{
  ℕ, zero, suc, ◌+◌, ◌≡◌, ◌≢◌, ◌<◌, ◌≤◌, ◌⊎◌, refl, ap, sym, ◌∙◌, Bool, List, [], ◌∷◌, Option, some,
  length, All, arith, inl, inr, le→leb,
}
use prism_db.Common.Order.{bytes_lt}
use prism_db.Common.Bytes.{IsU16, IsU64}
use prism_db.Index.Node.{
  Key, Entry, internal, IsNode, IsLink, insert_child, partition_point, insert_at,
}
use prism_db.Index.Entries.{Below, Over}
use prism_db.Index.Forest.{
  Forest, last, more, separators, child_pages, join, put, at, low, high, Every, Some,
  length-child_pages, gather-join, join-Every, join-Some,
}
use prism_db.Index.Placing.{separators-put, child_pages-put, join-Within}
use prism_db.Index.Separation.{join-Separate, join-Chain, first-join}
use prism_db.Index.Tree.{NodeStore}
use prism_db.Index.Subtree.{
  Subtree, page, inner, entries, Bounded, Stored, Stored-page, Stored_frame, Every_frame, Owns,
  Owns-Unread, Keeps, Chained, Apart, first_leaf, Unread,
}
use prism_db.Index.Writes.{Written, SplitOver}
use prism_db.Index.Grown.{Grown, Regrown}

partition_point_le : {A : Type 0} (p : A → Bool) (xs : List A) → partition_point p xs ≤ length xs
partition_point_le p [] = omega arith
partition_point_le p (x ∷ xs) = ground (arith, partition_point_le p xs)

pub insert_at_pos : {A : Type 0} (n : ℕ) (x : A) (xs : List A) → 0 < length (insert_at n x xs)
insert_at_pos zero x xs = omega arith
insert_at_pos (suc n) x [] = omega arith
insert_at_pos (suc n) x (y ∷ ys) = omega arith

-- The node with a child's split absorbed is the one of the new subtrees.
pub insert_child-inner :
    (h : ℕ) (k : Key) (lo hi : Option Key) (t : Subtree (suc h)) (u v : Subtree h) (j : Key)
    → page h u ≡ page h (at k t.kids)
    → Bounded (suc h) lo hi t
    → Over (low k lo t.kids) j
    → Below j (high k hi t.kids)
    → insert_child (inner h t) j (page h v)
      ≡ some (inner h (record t { kids = put k (more u j (last v)) t.kids }))
unfolding insert_child
insert_child-inner h k lo hi t u v j e b o bl =
    let pos = partition_point (λ (i : Key). bytes_lt i j) (separators t.kids) in
    let room : pos + 1 ≤ length (child_pages (page h) t.kids) = omega (
      arith,
      partition_point_le (λ (i : Key). bytes_lt i j) (separators t.kids),
      length-child_pages (page h) t.kids,
    ) in
    rw (
      le→leb (pos + 1) (length (child_pages (page h) t.kids)) room,
      separators-put (Bounded h) k lo hi t.kids u v j b o bl,
      child_pages-put (Bounded h) (page h) k lo hi t.kids u v j e b o bl,
      add_one pos,
    )
  where
    add_one : (n : ℕ) → n + 1 ≡ suc n
    add_one n = omega arith

-- A forest around one of its separators.
pub split_forest :
    {T : Type 0} (n : ℕ) (f : Forest T)
    → n < length (separators f)
    → (l : Forest T) × (k : Key) × (r : Forest T) × (f ≡ join l k r) × (length (separators l) ≡ n)
split_forest n (last t) h = absurd (omega arith)
split_forest zero (more t k f) h = (last t, k, f, refl, refl)
split_forest (suc n) (more t k f) h =
    let (l, j, r, e, len) = split_forest n f (omega arith) in
    (more t k l, j, r, ap (more t k) e, ap suc len)

module _ {S : Type 0} (store : NodeStore S) where
  child_pages-IsU64 :
      (s : S) (h : ℕ) (f : Forest (Subtree h))
      → Every (Stored store s h) f
      → All IsU64 (child_pages (page h) f)
  child_pages-IsU64 s h (last t) st = ((Stored-page store s h t st).1, tt)
  child_pages-IsU64 s h (more t k f) (st, sf) =
      ((Stored-page store s h t st).1, child_pages-IsU64 s h f sf)

  pub inner-IsNode :
      (s : S) (h : ℕ) (t : Subtree (suc h))
      → IsU16 t.level
      → IsLink t.right_sibling
      → Every (Stored store s h) t.kids
      → IsNode (internal (inner h t))
  inner-IsNode s h t a b st =
      (a, b, child_pages-IsU64 s h t.kids st, length-child_pages (page h) t.kids)

  -- The change of a page that a forest does not stand on keeps the forest.
  pub Every_others :
      (s s' : S) (h : ℕ) (f : Forest (Subtree h)) (here : ℕ)
      → ((p : ℕ) → p ≢ here → Keeps store s s' p)
      → ¬ Some (Owns h here) f
      → Every (Stored store s h) f
      → Every (Stored store s' h) f
  Every_others s s' h f here others other st =
      Every_frame (Stored store s h) (Stored store s' h) (Owns h) (Keeps store s s') f
        (Stored_frame store s s' h) (λ p o. others p (λ e. other (rw e at o))) st

  pub unread_of :
      (s : S) (h : ℕ) (f : Forest (Subtree h)) (p : ℕ)
      → Every (Stored store s h) f
      → Some (Owns h p) f
      → ¬ Unread store s p
  unread_of s h (last t) p st o = Owns-Unread store s h t p st o
  unread_of s h (more t k f) p (st, sf) (inl o) = Owns-Unread store s h t p st o
  unread_of s h (more t k f) p (st, sf) (inr o) = unread_of s h f p sf o

  module _ (op : List Entry → List Entry) where
    -- The parent with its new subtrees, on its page.
    pub Grown-Written :
        (s s' s'' : S) (h : ℕ) (lo hi : Option Key) (next : Option ℕ) (t : Subtree (suc h))
        (f : Forest (Subtree h))
        → Stored store s (suc h) t
        → Regrown store op s s' h lo hi next t f
        → Written store s' s'' t.page (internal (inner h (record t { kids = f })))
        → Grown store op s s'' (suc h) lo hi next t (last (record t { kids = f }))
    Grown-Written s s' s'' h lo hi next t f st r w = record {
      stored = (
        (w.here, inner-IsNode s' h (record t { kids = f }) st.0.1.0 st.0.1.1 r.stored, st.0.2),
        Every_others s' s'' h f t.page w.others r.other r.stored,
      );
      bounded = r.bounded;
      content = r.content;
      apart = (r.other, r.apart);
      chained = r.chained;
      first = r.first;
      top = refl;
      owned = λ p o. elim o [
        | inl i ↦ inl (inl i)
        | inr i ↦ elim (r.owned p i) [ inl j ↦ inl (inr j) | inr u ↦ inr u ]
      ];
      kept = λ p o n e. w.others p (λ i. o (inl i)) n (r.kept p (λ i. o (inr i)) n e);
      fresh = λ p u. r.fresh p (w.fresh p u);
    }

    -- The halves of a node, once both are on their pages.
    pub Grown-halves :
        (s s' s'' : S) (h : ℕ) (lo hi : Option Key) (next : Option ℕ) (t : Subtree (suc h))
        (l : Forest (Subtree h)) (j : Key) (f : Forest (Subtree h)) (q : ℕ)
        → Stored store s (suc h) t
        → Regrown store op s s' h lo hi next t (join l j f)
        → SplitOver store s' s'' t.page
            (internal (inner h (record t { right_sibling = some q; kids = l })))
            q
            (internal (inner h (record t { page = q; kids = f })))
        → Grown store op s s'' (suc h) lo hi next t (
            more
              (record t { right_sibling = some q; kids = l })
              j
              (last (record t { page = q; kids = f })))
    Grown-halves s s' s'' h lo hi next t l j f q st r w =
        let (el, ef) = join-Every (Stored store s' h) l j f r.stored in
        let (sl, sf, dis) = join-Separate (Owns h) (Apart h) l j f r.apart in
        let other_l : ¬ Some (Owns h t.page) l =
          λ o. r.other (join-Some (Owns h t.page) l j f (inl o)) in
        let other_f : ¬ Some (Owns h t.page) f =
          λ o. r.other (join-Some (Owns h t.page) l j f (inr o)) in
        let new_l : ¬ Some (Owns h q) l = λ o. unread_of s' h l q el o w.unread in
        let new_f : ¬ Some (Owns h q) f = λ o. unread_of s' h f q ef o w.unread in
        let ne : t.page ≢ q = λ i. w.unread (internal (inner h t)) (rw (← i) r.same) in
        record {
          stored = (
            (
              (
                w.here,
                inner-IsNode s' h (record t { right_sibling = some q; kids = l }) st.0.1.0
                    w.new_page el,
                st.0.2,
              ),
              Every_others s' s'' h l t.page w.others other_l el,
            ),
            (
              (
                w.there,
                inner-IsNode s' h (record t { page = q; kids = f }) st.0.1.0 st.0.1.1 ef,
                w.new_page,
              ),
              Every_others s' s'' h f t.page w.others other_f ef,
            ),
          );
          bounded = join-Within (Bounded h) lo hi l j f r.bounded;
          content = sym (gather-join (entries h) l j f) ∙ r.content;
          apart = (
            (other_l, sl),
            (new_f, sf),
            λ p o i. elim o [
              | inl a ↦ elim i [ inl b ↦ ne (sym a ∙ b) | inr b ↦ other_f (rw a at b) ]
              | inr a ↦ elim i [ inl b ↦ new_l (rw b at a) | inr b ↦ dis p a b ]
            ],
          );
          chained = join-Chain (Chained h) (first_leaf h) next l j f r.chained;
          first = sym (first-join (Chained h) (first_leaf h) l j f) ∙ r.first;
          top = refl;
          owned = λ p o. elim o [
            | inl a ↦ elim a [
              | inl b ↦ inl (inl b)
              | inr b ↦ below (r.owned p (join-Some (Owns h p) l j f (inl b)))
            ]
            | inr a ↦ elim a [
              | inl b ↦ inr (rw b (r.fresh q w.unread))
              | inr b ↦ below (r.owned p (join-Some (Owns h p) l j f (inr b)))
            ]
          ];
          kept = λ p o n e. w.others p (λ i. o (inl i)) n (r.kept p (λ i. o (inr i)) n e);
          fresh = λ p u. r.fresh p (w.fresh p u);
        }
      where
        below : {A B C : Type 0} → B ⊎ C → (A ⊎ B) ⊎ C
        below (inl x) = inl (inr x)
        below (inr x) = inr x
