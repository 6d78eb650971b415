-- ===== src/Index/Grown.antt =====
-- crates/prism-index/src/btree.rs: what a change below a page leaves: the subtrees that stand there
-- now, one or, after a split, two.
use prism_db.Common.{ℕ, zero, suc, ◌≡◌, ◌⊎◌, refl, List, ◌++◌, Option, All, inl, inr}
use prism_db.Common.Results.{ok}
use prism_db.Index.Node.{Key, Entry, leaf, internal, IsEntry}
use prism_db.Index.Bounds.{IsBounded}
use prism_db.Index.Entries.{Before, After}
use prism_db.Index.Forest.{
  Forest, last, at, put, low, high, gather, separators, child_pages, Every, Some, Within, at-Some,
  Some-put,
}
use prism_db.Index.Placing.{Within-put, gather-put}
use prism_db.Index.Separation.{Separate-put, Every-put, Chain-put, follow}
use prism_db.Index.Tree.{NodeStore}
use prism_db.Index.Writes.{Written}
use prism_db.Index.Subtree.{
  Subtree, page, inner, entries, Bounded, Bounded-InRange, Stored, Stored_frame, Owns, Owns-Unread,
  Unread, Keeps, Apart, Separate, Chain, Chained, first_leaf, head,
}

-- `op` is what the change does to the entries; `g` stands where `t` stood, on the pages of `t` and on
-- fresh ones.
module _ {S : Type 0} (store : NodeStore S) (op : List Entry → List Entry) where
  pub record Grown (s s' : S) (h : ℕ) (lo hi : Option Key) (next : Option ℕ) (t : Subtree h)
      (g : Forest (Subtree h)) : Type 0 where
    pub stored : Every (Stored store s' h) g
    pub bounded : Within (Bounded h) lo hi g
    pub content : gather (entries h) g ≡ op (entries h t)
    pub apart : Separate (Owns h) (Apart h) g
    pub chained : Chain (Chained h) (first_leaf h) next g
    pub first : first_leaf h (head g) ≡ first_leaf h t
    pub top : page h (head g) ≡ page h t
    pub owned : (p : ℕ) → Some (Owns h p) g → Owns h p t ⊎ Unread store s p
    pub kept : (p : ℕ) → ¬ Owns h p t → Keeps store s s' p
    pub fresh : (p : ℕ) → Unread store s' p → Unread store s p

  -- The parent's subtrees after a change below one of them; the parent's page is as it was.
  pub record Regrown (s s' : S) (h : ℕ) (lo hi : Option Key) (next : Option ℕ) (t : Subtree (suc h))
      (f : Forest (Subtree h)) : Type 0 where
    pub stored : Every (Stored store s' h) f
    pub bounded : Within (Bounded h) lo hi f
    pub content : gather (entries h) f ≡ op (entries (suc h) t)
    pub apart : Separate (Owns h) (Apart h) f
    pub chained : Chain (Chained h) (first_leaf h) next f
    pub first : first_leaf h (head f) ≡ first_leaf (suc h) t
    pub owned : (p : ℕ) → Some (Owns h p) f → Some (Owns h p) t.kids ⊎ Unread store s p
    pub kept : (p : ℕ) → ¬ Some (Owns h p) t.kids → Keeps store s s' p
    pub fresh : (p : ℕ) → Unread store s' p → Unread store s p
    pub other : ¬ Some (Owns h t.page) f
    pub same : store.read_node s' t.page ≡ ok (internal (inner h t))

module _ {S : Type 0} (store : NodeStore S) (op : List Entry → List Entry) (k : Key)
    (before : (us vs : List Entry) → All (Before k) us → op (us ++ vs) ≡ us ++ op vs)
    (after : (us vs : List Entry) → All (After k) vs → op (us ++ vs) ≡ op us ++ vs) where
  pub Grown-put :
      (s s' : S) (h : ℕ) (lo hi : Option Key) (next : Option ℕ) (t : Subtree (suc h))
      (g : Forest (Subtree h))
      → Stored store s (suc h) t
      → Bounded (suc h) lo hi t
      → Apart (suc h) t
      → Chained (suc h) next t
      → Grown store op s s' h
          (low k lo t.kids)
          (high k hi t.kids)
          (follow (Chained h) (first_leaf h) k next t.kids)
          (at k t.kids)
          g
      → Regrown store op s s' h lo hi next t (put k g t.kids)
  Grown-put s s' h lo hi next t g st b a c r =
      let kids = t.kids in
      let old : (p : ℕ) → Some (Owns h p) kids → ¬ Unread store s p =
        λ p o. Owns-Unread store s (suc h) t p st (inr o) in
      let chain = Chain-put (Chained h) (first_leaf h) k next g kids c r.chained r.first in
      let own : (p : ℕ) → Some (Owns h p) (put k g kids) → Some (Owns h p) kids ⊎ Unread store s p =
        λ p o. owned_put s s' h t g p (r.owned p) (Some-put (Owns h p) k g kids o) in
      record {
        stored =
            Every-put (Owns h) (Apart h) (Unread store s) k g (Stored store s h) (Stored store s' h)
              kids (λ u o x. Stored_frame store s s' h u (λ p i. r.kept p (o p i)) x) a.1 st.1
              r.stored;
        bounded = Within-put (Bounded h) k lo hi g kids b r.bounded;
        content =
            gather-put (Bounded h) (entries h) (Bounded-InRange h) k op before after lo hi g kids b
              r.content;
        apart = Separate-put (Owns h) (Apart h) (Unread store s) k g kids a.1 r.apart r.owned old;
        chained = chain.0;
        first = chain.1;
        owned = own;
        kept = λ p o. r.kept p (λ i. o (at-Some (Owns h p) k kids i));
        fresh = r.fresh;
        other =
            λ o. elim (own t.page o) [ inl i ↦ a.0 i | inr u ↦ u (internal (inner h t)) st.0.0 ];
        same =
            r.kept t.page (λ i. a.0 (at-Some (Owns h t.page) k kids i)) (internal (inner h t))
              st.0.0;
      }
    where
      owned_put :
          (s s' : S) (h : ℕ) (t : Subtree (suc h)) (g : Forest (Subtree h)) (p : ℕ)
          → (Some (Owns h p) g → Owns h p (at k t.kids) ⊎ Unread store s p)
          → Some (Owns h p) g ⊎ Some (Owns h p) t.kids
          → Some (Owns h p) t.kids ⊎ Unread store s p
      owned_put s s' h t g p own (inr o) = inl o
      owned_put s s' h t g p own (inl o) = elim (own o) [
        | inl i ↦ inl (at-Some (Owns h p) k t.kids i)
        | inr u ↦ inr u
      ]

module _ {S : Type 0} (store : NodeStore S) (op : List Entry → List Entry) where
  -- A leaf that is written anew on its page.
  pub Grown-leaf :
      (s s' : S) (lo hi : Option Key) (next : Option ℕ) (t : Subtree zero) (es : List Entry)
      → Stored store s zero t
      → Chained zero next t
      → Written store s s' t.page
          (leaf (record { right_sibling = t.node.right_sibling; entries = es }))
      → All IsEntry es
      → IsBounded lo hi es
      → es ≡ op t.node.entries
      → Grown store op s s' zero lo hi next t (
          last (record {
            page = t.page;
            node = record { right_sibling = t.node.right_sibling; entries = es };
          }))
  Grown-leaf s s' lo hi next t es st c w v b e = record {
    stored = (w.here, (st.1.0, v), st.2);
    bounded = b;
    content = e;
    apart = tt;
    chained = c;
    first = refl;
    top = refl;
    owned = λ p o. inl o;
    kept = w.others;
    fresh = w.fresh;
  }

  -- Nothing written, and nothing to do.
  pub Grown-same :
      (s : S) (h : ℕ) (lo hi : Option Key) (next : Option ℕ) (t : Subtree h)
      → Stored store s h t
      → Bounded h lo hi t
      → Apart h t
      → Chained h next t
      → entries h t ≡ op (entries h t)
      → Grown store op s s h lo hi next t (last t)
  Grown-same s h lo hi next t st b a c e = record {
    stored = st;
    bounded = b;
    content = e;
    apart = a;
    chained = c;
    first = refl;
    top = refl;
    owned = λ p o. inl o;
    kept = λ p o m r. r;
    fresh = λ p u. u;
  }

  -- A parent whose node needs no change.
  pub Grown-above :
      (s s' : S) (h : ℕ) (lo hi : Option Key) (next : Option ℕ) (t : Subtree (suc h))
      (f : Forest (Subtree h))
      → Stored store s (suc h) t
      → Regrown store op s s' h lo hi next t f
      → child_pages (page h) f ≡ child_pages (page h) t.kids
      → separators f ≡ separators t.kids
      → Grown store op s s' (suc h) lo hi next t (last (record t { kids = f }))
  Grown-above s s' h lo hi next t f st r ec es = record {
    stored = ((rw (ec, es) r.same, rw (ec, es) st.0.1, st.0.2), r.stored);
    bounded = r.bounded;
    content = r.content;
    apart = (r.other, r.apart);
    chained = r.chained;
    first = r.first;
    top = refl;
    owned = λ p o. elim o [
      | inl i ↦ inl (inl i)
      | inr i ↦ elim (r.owned p i) [ inl j ↦ inl (inr j) | inr u ↦ inr u ]
    ];
    kept = λ p o. r.kept p (λ i. o (inr i));
    fresh = r.fresh;
  }
