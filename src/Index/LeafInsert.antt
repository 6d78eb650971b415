-- ===== src/Index/LeafInsert.antt =====
-- crates/prism-index/src/btree.rs: `insert_into` at a leaf.
use prism_db.Common.{
  ℕ, zero, suc, ◌+◌, ◌/◌, ◌≡◌, ◌≢◌, ◌<◌, ◌≤◌, ◌⊎◌, refl, ap, sym, ◌∙◌, false, ◌&&◌, List, [], ◌∷◌,
  ◌++◌, Option, none, some, length, All, append-All, arith, inl, inr, Bool-cases, leb, le→leb,
  length-append, take-append, drop-append,
}
use prism_db.Core.Record.{RecordId}
use prism_db.Index.Node.{Key, Entry, leaf, IsEntry, split_off, leaf_size, entries_size}
use prism_db.Index.Entries.{put_entry, AtLeast, Below}
use prism_db.Index.Sorted.{upsert-put_entry}
use prism_db.Index.Bounds.{put_entry-IsBounded, put_entry-All, append-IsBounded, IsBounded}
use prism_db.Index.Forest.{last, more}
use prism_db.Index.Outcome.{Ends, return, ◌>>=◌, Ends-settle}
use prism_db.Index.Tree.{
  NodeStore, BTree, Split, insert_leaf, split_leaf, max_body, node_size, write_node,
}
use prism_db.Index.Subtree.{Subtree, page, Bounded, Stored, Chained}
use prism_db.Index.Writes.{SplitOver, write-Written, alloc-write-SplitOver}
use prism_db.Index.Grown.{Grown, Grown-leaf}

-- What an insertion leaves: the subtree on its page, or its two halves and the separator.
module _ {S : Type 0} (store : NodeStore S) (k : Key) (rid : RecordId) where
  abbrev pub Inserted :
      S → (h : ℕ) → Option Key → Option Key → Option ℕ → Subtree h → Split → S → Type 0
  Inserted s h lo hi next t r s' =
      ((t' : Subtree h) × (r ≡ none) × Grown store (put_entry k rid) s s' h lo hi next t (last t'))
      ⊎ ((u : Subtree h) × (j : Key) × (v : Subtree h) × (r ≡ some (j, page h v))
          × Grown store (put_entry k rid) s s' h lo hi next t (more u j (last v)))

-- A list around one of its elements.
pub split_list {ℓ} :
    {A : Type ℓ} (n : ℕ) (xs : List A)
    → n < length xs
    → (us : List A) × (x : A) × (vs : List A) × (xs ≡ us ++ x ∷ vs) × (length us ≡ n)
split_list n [] h = absurd (omega arith)
split_list zero (x ∷ xs) h = ([], x, xs, refl, refl)
split_list (suc n) (x ∷ xs) h =
    let (us, y, vs, e, l) = split_list n xs (omega arith) in (x ∷ us, y, vs, ap (◌∷◌ x) e, ap suc l)

pub split_off-append :
    {A : Type 0} (n : ℕ) (us vs : List A) → length us ≡ n → split_off n (us ++ vs) ≡ some (us, vs)
split_off-append n us vs h = rw (
  le→leb n (length (us ++ vs)) (omega (arith, length-append us vs)),
  take-append n us vs h,
  drop-append n us vs h,
)

put_entry_pos : (k : Key) (rid : RecordId) (es : List Entry) → 0 < length (put_entry k rid es)
unfolding put_entry
put_entry_pos k rid [] = omega arith
put_entry_pos k rid ((j, r) ∷ es) = ground arith

module _ {S : Type 0} (store : NodeStore S) (tree : BTree) (wide : 2 ≤ tree.order) (k : Key)
    (rid : RecordId) where
  -- The halves of a leaf, once both are on their pages.
  Grown-split_leaf :
      (s s' : S) (lo hi : Option Key) (next : Option ℕ) (t : Subtree zero) (us vs : List Entry)
      (j : Key) (r : RecordId) (q : ℕ)
      → Stored store s zero t
      → Chained zero next t
      → 0 < length us
      → put_entry k rid t.node.entries ≡ us ++ (j, r) ∷ vs
      → All IsEntry (us ++ (j, r) ∷ vs)
      → IsBounded lo hi (us ++ (j, r) ∷ vs)
      → SplitOver store s s' t.page
          (leaf (record { right_sibling = some q; entries = us }))
          q
          (leaf (record { right_sibling = t.node.right_sibling; entries = (j, r) ∷ vs }))
      → Inserted store k rid s zero lo hi next t (some (j, q)) s'
  Grown-split_leaf s s' lo hi next t us vs j r q st c pos e v b w =
      let u : Subtree zero = record {
        page = t.page;
        node = record { right_sibling = some q; entries = us };
      } in
      let x : Subtree zero = record {
        page = q;
        node = record { right_sibling = t.node.right_sibling; entries = (j, r) ∷ vs };
      } in
      let (vu, vx) = append-All IsEntry us ((j, r) ∷ vs) v in
      let ne : t.page ≢ q = λ i. w.unread (leaf t.node) (rw (← i) st.0) in
      inr (
        u,
        j,
        x,
        refl,
        record {
          stored = ((w.here, (w.new_page, vu), st.2), (w.there, (st.1.0, vx), w.new_page));
          bounded = append-IsBounded lo hi us vs j r pos b;
          content = sym e;
          apart = (tt, tt, λ p o i. ne (sym o ∙ i));
          chained = (refl, c);
          first = refl;
          top = refl;
          owned = λ p o. elim o [ inl i ↦ inl i | inr i ↦ inr (rw i w.unread) ];
          kept = w.others;
          fresh = w.fresh;
        },
      )

  -- A leaf of one entry is split for its size alone, and its right half is not written.
  left_half_pos :
      (us vs es : List Entry) (x : Entry)
      → es ≡ us ++ x ∷ vs
      → length us ≡ length es / 2
      → (leb (length es) tree.order && leb (12 + entries_size es) max_body) ≡ false
      → 12 + entries_size (x ∷ vs) ≤ max_body
      → 0 < length us
  left_half_pos (u ∷ us) vs es x e l full fits = omega arith
  left_half_pos [] [] es x e l full fits =
      absurd (whole_fits es (x ∷ []) e full (omega (arith, wide)) fits)
    where
      whole_fits :
          (es vs : List Entry)
          → es ≡ vs
          → (leb (length es) tree.order && leb (12 + entries_size es) max_body) ≡ false
          → length vs ≤ tree.order
          → 12 + entries_size vs ≤ max_body
          → ⊥
      whole_fits es vs e full a b = ground arith
  left_half_pos [] (y ∷ vs) es x e l full fits = absurd (omega (arith, ap (length {A = Entry}) e))

  split_leaf-Inserted :
      (s : S) (lo hi : Option Key) (next : Option ℕ) (t : Subtree zero) (es : List Entry)
      → Stored store s zero t
      → Chained zero next t
      → es ≡ put_entry k rid t.node.entries
      → All IsEntry es
      → IsBounded lo hi es
      → 0 < length es
      → (leb (length es) tree.order && leb (12 + entries_size es) max_body) ≡ false
      → Ends
          (split_leaf store tree t.page
            (record { right_sibling = t.node.right_sibling; entries = es })
            s)
          (Inserted store k rid s zero lo hi next t)
  unfolding split_leaf node_size leaf_size
  split_leaf-Inserted s lo hi next t es st c e v b pos full =
      let (us, x, vs, cut, len) = split_list (length es / 2) es (omega arith) in
      rw (cut, split_off-append (length (us ++ x ∷ vs) / 2) us (x ∷ vs) (rw (← cut) len))
        (Ends-settle
          (store.alloc_page
            (leaf (record { right_sibling = t.node.right_sibling; entries = x ∷ vs })) s)
          (λ q.
            write_node store t.page (leaf (record { right_sibling = some q; entries = us }))
            >>= λ _. return (some (x.0, q)))
          (Inserted store k rid s zero lo hi next t)
          (λ q a.
            Ends-settle
              (store.write_page t.page (leaf (record { right_sibling = some q; entries = us }))
                (store.alloc_page
                  (leaf (record { right_sibling = t.node.right_sibling; entries = x ∷ vs })) s).0)
              (λ _. return (some (x.0, q))) (Inserted store k rid s zero lo hi next t)
              (λ _ w.
                let fits : 12 + entries_size (x ∷ vs) ≤ max_body = store.alloc_fits _ s q a in
                let pos' = left_half_pos us vs es x cut len full fits in
                let (vu, vx) = append-All IsEntry us (x ∷ vs) (rw cut at v) in
                Grown-split_leaf s _ lo hi next t us vs x.0 x.1 q st c pos' (sym e ∙ cut)
                  (rw cut at v) (rw cut at b)
                  (alloc-write-SplitOver store s t.page q (leaf t.node)
                    (leaf (record { right_sibling = some q; entries = us }))
                    (leaf (record { right_sibling = t.node.right_sibling; entries = x ∷ vs })) st.0
                    (st.1.0, vx) a (store.alloc_id _ s q a, vu) w))))

  pub insert_leaf-Inserted :
      (s : S) (lo hi : Option Key) (next : Option ℕ) (t : Subtree zero)
      → Stored store s zero t
      → Bounded zero lo hi t
      → Chained zero next t
      → IsEntry (k, rid)
      → AtLeast lo k
      → Below k hi
      → Ends
          (insert_leaf store tree t.page t.node k rid s)
          (Inserted store k rid s zero lo hi next t)
  unfolding insert_leaf leaf_size
  insert_leaf-Inserted s lo hi next t st b c v a bk =
      let es = put_entry k rid t.node.entries in
      let vs = put_entry-All IsEntry k rid t.node.entries v st.1.1 in
      let bs = put_entry-IsBounded lo hi k rid t.node.entries a bk b in
      rw (upsert-put_entry t.node.entries k rid)
        (elim (Bool-cases (leb (length es) tree.order && leb (12 + entries_size es) max_body)) [
          | inl small ↦ rw small (
              Ends-settle
                (store.write_page t.page
                  (leaf (record { right_sibling = t.node.right_sibling; entries = es })) s)
                (λ _. return none) (Inserted store k rid s zero lo hi next t)
                (λ _ w. inl (
                  record {
                    page = t.page;
                    node = record { right_sibling = t.node.right_sibling; entries = es };
                  },
                  refl,
                  Grown-leaf store (put_entry k rid) s _ lo hi next t es st c
                      (write-Written store s t.page
                        (leaf (record { right_sibling = t.node.right_sibling; entries = es }))
                        (st.1.0, vs) w)
                      vs bs refl,
                )))
          | inr full ↦ rw full (
              split_leaf-Inserted s lo hi next t es st c refl vs bs
                (put_entry_pos k rid t.node.entries) full)
        ])
