-- ===== src/Index/Refine.antt =====
-- crates/prism-index/src/btree.rs: new trees, and runs of `insert` and `delete` against a sorted map.
use prism_db.Common.{
  ℕ, zero, suc, ◌+◌, ◌≡◌, ◌<◌, ◌≤◌, refl, List, [], ◌∷◌, none, length, All, arith, max,
}
use prism_db.Common.Results.{ok}
use prism_db.Core.Record.{RecordId}
use prism_db.Index.Node.{Key, Entry, Leaf, leaf, IsEntry}
use prism_db.Index.Entries.{find, put_entry, erase}
use prism_db.Index.Bounds.{IsBounded}
use prism_db.Index.Outcome.{Ends, M, return, ◌>>◌, done, Ends-settle, Ends-bind, Ends_imp}
use prism_db.Index.Tree.{NodeStore, BTree, with_order, insert, delete, search}
use prism_db.Index.Subtree.{IsTree}
use prism_db.Index.Search.{search-find, delete-erase}
use prism_db.Index.Root.{insert-put_entry}

-- A change of the index, and what it is on the map.
pub data Change : Type 0 where
  put : Key → RecordId → Change
  remove : Key → Change

unfoldable pub apply : List Change → List Entry → List Entry
apply [] es = es
apply (put k rid ∷ cs) es = apply cs (put_entry k rid es)
apply (remove k ∷ cs) es = apply cs (erase k es)

abbrev pub IsChange : Change → Type 0
IsChange (put k rid) = IsEntry (k, rid)
IsChange (remove k) = Unit {0}

module _ {S : Type 0} (store : NodeStore S) where
  -- A page that is allocated for a leaf is a tree.
  pub alloc-IsTree :
      (s : S) (page : ℕ) (es : List Entry)
      → All IsEntry es
      → IsBounded none none es
      → (store.alloc_page (leaf (record { right_sibling = none; entries = es })) s).1 ≡ ok page
      → IsTree store page
          (store.alloc_page (leaf (record { right_sibling = none; entries = es })) s).0
          zero
          es
  alloc-IsTree s page es v b a =
      let l : Leaf = record { right_sibling = none; entries = es } in
      record {
        top = record { page = page; node = l };
        at_root = refl;
        stored =
            (store.alloc-read (leaf l) s page (tt, v) a, (tt, v), store.alloc_id (leaf l) s page a);
        bounded = b;
        apart = tt;
        chained = refl;
        content = refl;
      }

  -- A new tree is empty and of an order that can be split.
  pub with_order-IsTree :
      (order : ℕ) (s : S)
      → Ends
          (with_order store order s)
          (λ tree s'. (2 ≤ tree.order) × IsTree store tree.root s' zero [])
  unfolding with_order
  with_order-IsTree order s =
      Ends-settle (store.alloc_page (leaf (record { right_sibling = none; entries = [] })) s)
        (λ root. return (record { root = root; order = max order 2 }))
        (λ tree s'. (2 ≤ tree.order) × IsTree store tree.root s' zero [])
        (λ page a. (omega arith, alloc-IsTree s page [] tt (tt, tt) a))

  module _ (tree : BTree) (fuel : ℕ) where
    unfoldable pub change : Change → M S (Unit {0})
    change (put k rid) = insert store tree fuel k rid
    change (remove k) = delete store tree fuel k >> return tt

    unfoldable pub run : List Change → M S (Unit {0})
    unfolding change
    run [] = return tt
    run (c ∷ cs) = change c >> run cs

    change-apply :
        (c : Change) (h : ℕ) (s : S) (es : List Entry)
        → 2 ≤ tree.order
        → IsChange c
        → IsTree store tree.root s h es
        → h < fuel
        → Ends
            (change c s)
            (λ _ s'. (h' : ℕ) × (h' ≤ suc h) × IsTree store tree.root s' h' (apply (c ∷ []) es))
    unfolding change apply
    change-apply (put k rid) h s es wide v r n =
        insert-put_entry store tree fuel h s es k rid wide v r n
    change-apply (remove k) h s es wide v r n =
        Ends-bind (delete store tree fuel k s) (λ _. return tt)
          (λ b s'. IsTree store tree.root s' h (erase k es) × _) _
          (delete-erase store tree fuel h s es k r n) (λ b s' t. (h, omega arith, t.0))

    -- After any changes, each of which has returned, a search for any key gives what a sorted map
    -- with the same changes holds, and the height has grown by one for a change at most.
    pub run-apply :
        (cs : List Change) (h : ℕ) (s : S) (es : List Entry)
        → 2 ≤ tree.order
        → All IsChange cs
        → IsTree store tree.root s h es
        → h + length cs < fuel
        → Ends (run cs s) (λ _ s'.
          ((h' : ℕ) × (h' ≤ h + length cs) × IsTree store tree.root s' h' (apply cs es))
          × ((key : Key) → search store tree fuel key s' ≡ done (find key (apply cs es)) s'))
    unfolding run apply
    run-apply [] h s es wide v r n =
        ((h, omega arith, r), λ key. search-find store tree fuel h s es key r (omega arith))
    run-apply (c ∷ cs) h s es wide (v, vs) r n =
        Ends-bind (change c s) (λ _. run cs)
          (λ _ s'. (h' : ℕ) × (h' ≤ suc h) × IsTree store tree.root s' h' (apply (c ∷ []) es)) _
          (change-apply c h s es wide v r (omega arith))
          (λ _ s' (h', le, r').
            Ends_imp (run cs s') _ _
              (λ _ s'' ((h'', le', r''), found). (
                (h'', omega arith, rw (apply_cons c cs es) r''),
                λ key. rw (apply_cons c cs es) (found key),
              ))
              (run-apply cs h' s' (apply (c ∷ []) es) wide vs r' (omega arith)))
      where
        apply_cons :
            (c : Change) (cs : List Change) (es : List Entry)
            → apply (c ∷ cs) es ≡ apply cs (apply (c ∷ []) es)
        apply_cons (put k rid) cs es = refl
        apply_cons (remove k) cs es = refl
