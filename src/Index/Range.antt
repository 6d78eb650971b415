-- ===== src/Index/Range.antt =====
-- crates/prism-index/src/btree.rs: `range` against the entries of the tree.
use prism_db.Common.{
  ℕ, zero, suc, ◌≤◌, append-All, ◌≡◌, ◌<◌, refl, sym, List, [], ◌∷◌, ◌++◌, Option, none, some,
  length, All, All-append, arith, append_assoc, append-nil, Bool-cases, inl, inr, length-append,
}
use prism_db.Common.Order.{bytes_lt}
use prism_db.Index.Node.{Key, Entry, route}
use prism_db.Index.Entries.{IsSorted, Before, between}
use prism_db.Index.Forest.{Forest, last, more, at, gather, Every, Within, route-at, Every-at}
use prism_db.Index.Placing.{range-Before}
use prism_db.Index.Outcome.{done}
use prism_db.Index.Tree.{NodeStore, BTree, leaf_page, range}
use prism_db.Index.Subtree.{
  LeafAt, Subtree, page, entries, Bounded, Bounded-InRange, Stored, Chain, Chained, first_leaf,
  head, IsTree,
}
use prism_db.Index.Scan.{
  Linked, first_page, row_entries, row_entries-append, Readable, scan_leaves-between,
  between-append, between-Before,
}
use prism_db.Index.Leaves.{
  leaves, Bounded-IsSorted, from_kids, leaves_from, forest_row, Linked-append, first_page-append,
}

-- Where `range` starts: behind entries that are all smaller.
record Start (h : ℕ) (k : Key) (next : Option ℕ) (t : Subtree h) : Type 0 where
  skipped : List Entry
  split : entries h t ≡ skipped ++ row_entries (leaves_from h k t)
  before : All (Before k) skipped
  linked : Linked next (leaves_from h k t)
  short : length (leaves_from h k t) ≤ length (leaves h t)

leaves_from-Start :
    (h : ℕ) (k : Key) (lo hi : Option Key) (next : Option ℕ) (t : Subtree h)
    → Bounded h lo hi t
    → Chained h next t
    → Start h k next t
unfolding leaves_from
leaves_from-Start zero k lo hi next t b c = record {
  skipped = [];
  split = sym (append-nil t.node.entries);
  before = tt;
  linked = (c, tt);
  short = omega arith;
}
leaves_from-Start (suc h) k lo hi next t b c =
    let (skipped, e, bf, l, n) = kids_from h k lo hi next t.kids b c (leaves_from-Start h k) in
    record { skipped = skipped; split = e; before = bf; linked = l; short = n }
  where
    kids_from :
        (h : ℕ) (k : Key) (lo hi : Option Key) (next : Option ℕ) (f : Forest (Subtree h))
        → Within (Bounded h) lo hi f
        → Chain (Chained h) (first_leaf h) next f
        → ((lo hi : Option Key) (next : Option ℕ) (t : Subtree h)
            → Bounded h lo hi t
            → Chained h next t
            → Start h k next t)
        → (skipped : List Entry) × (gather (entries h) f
            ≡ skipped ++ row_entries (from_kids (leaves h) (leaves_from h k) k f))
          × All (Before k) skipped
          × Linked next (from_kids (leaves h) (leaves_from h k) k f)
          × (length (from_kids (leaves h) (leaves_from h k) k f) ≤ length (gather (leaves h) f))
    kids_from h k lo hi next (last t) b c ih =
        let r = ih lo hi next t b c in (r.skipped, r.split, r.before, r.linked, r.short)
    kids_from h k lo hi next (more t j f) (o, bj, w, ws) (c, cs) ih =
        elim (Bool-cases (bytes_lt k j)) [
          | inl p ↦
              let r = ih lo (some j) (some (first_leaf h (head f))) t w c in
              let (l, first, e) = forest_row h next f cs in
              rw p (
                r.skipped,
                rw (r.split, row_entries-append (leaves_from h k t) (gather (leaves h) f), e)
                    (append_assoc r.skipped (row_entries (leaves_from h k t))
                      (gather (entries h) f)),
                r.before,
                Linked-append next (leaves_from h k t) (gather (leaves h) f) (rw first r.linked) l,
                omega (
                  arith,
                  r.short,
                  length-append (leaves_from h k t) (gather (leaves h) f),
                  length-append (leaves h t) (gather (leaves h) f),
                ),
              )
          | inr p ↦
              let (skipped, e, bf, l, n) = kids_from h k (some j) hi next f ws cs ih in
              rw p (
                entries h t ++ skipped,
                rw e (
                    sym (
                      append_assoc (entries h t) skipped
                        (row_entries (from_kids (leaves h) (leaves_from h k) k f)))),
                All-append (Before k) (entries h t) skipped
                    (range-Before (Bounded h) (entries h) (Bounded-InRange h) k lo j t p w) bf,
                l,
                omega (arith, n, length-append (leaves h t) (gather (leaves h) f)),
              )
        ]

module _ {S : Type 0} (store : NodeStore S) (k : Key) where
  leaves-Readable :
      (s : S) (h : ℕ) (t : Subtree h) → Stored store s h t → All (Readable store s) (leaves h t)
  leaves-Readable s zero t st = (st.0, tt)
  leaves-Readable s (suc h) t st = kids_readable h t.kids st.1 (leaves-Readable s h)
    where
      kids_readable :
          (h : ℕ) (f : Forest (Subtree h))
          → Every (Stored store s h) f
          → ((t : Subtree h) → Stored store s h t → All (Readable store s) (leaves h t))
          → All (Readable store s) (gather (leaves h) f)
      kids_readable h (last t) st ih = ih t st
      kids_readable h (more t j f) (st, sf) ih =
          All-append (Readable store s) (leaves h t) (gather (leaves h) f) (ih t st)
            (kids_readable h f sf ih)

  leaves_from-All :
      (P : LeafAt → Type 0) (h : ℕ) (t : Subtree h) → All P (leaves h t) → All P (leaves_from h k t)
  unfolding leaves_from
  leaves_from-All P zero t a = a
  leaves_from-All P (suc h) t a = kids_all h t.kids a (leaves_from-All P h)
    where
      kids_all :
          (h : ℕ) (f : Forest (Subtree h))
          → All P (gather (leaves h) f)
          → ((t : Subtree h) → All P (leaves h t) → All P (leaves_from h k t))
          → All P (from_kids (leaves h) (leaves_from h k) k f)
      kids_all h (last t) a ih = ih t a
      kids_all h (more t j f) a ih =
          let (at, af) = append-All P (leaves h t) (gather (leaves h) f) a in
          elim (Bool-cases (bytes_lt k j)) [
            | inl p ↦ rw p (All-append P (leaves_from h k t) (gather (leaves h) f) (ih t at) af)
            | inr p ↦ rw p (kids_all h f af ih)
          ]

  first_kids :
      (h p : ℕ) (next : Option ℕ) (f : Forest (Subtree h))
      → ((next : Option ℕ) → first_page next (leaves_from h k (at k f)) ≡ some p)
      → first_page next (from_kids (leaves h) (leaves_from h k) k f) ≡ some p
  unfolding leaves_from at
  first_kids h p next (last t) e = e next
  first_kids h p next (more t j f) e = elim (Bool-cases (bytes_lt k j)) [
    | inl q ↦
        rw (q, first_page-append next (leaves_from h k t) (gather (leaves h) f))
          (rw q at (e (first_page next (gather (leaves h) f))))
    | inr q ↦ rw q (first_kids h p next f (λ n. rw q at (e n)))
  ]

  leaf_page-first :
      (fuel h : ℕ) (t : Subtree h) (s : S)
      → h < fuel
      → Stored store s h t
      → (p : ℕ) × (leaf_page store fuel (page h t) k s ≡ done p s)
        × ((next : Option ℕ) → first_page next (leaves_from h k t) ≡ some p)
  unfolding leaf_page route leaves_from
  leaf_page-first zero h t s n st = absurd (omega arith)
  leaf_page-first (suc fuel) zero t s n st = (t.page, rw (st.0, leaf_page), λ next. refl)
  leaf_page-first (suc fuel) (suc h) t s n st =
      let (p, e, f) =
        leaf_page-first fuel h (at k t.kids) s (omega arith)
          (Every-at (Stored store s h) k t.kids st.1) in
      (
        p,
        rw (st.0.0, leaf_page, route-at (page h) k t.kids) e,
        λ next. first_kids h p next t.kids f,
      )

append-IsSorted : (us vs : List Entry) → IsSorted (us ++ vs) → IsSorted vs
append-IsSorted [] vs s = s
append-IsSorted (u ∷ us) vs (a, s) = append-IsSorted us vs s

-- `range` returns the entries from `start` on and before `end`, in their order. The fuel exceeds the
-- height and the number of leaves.
pub range-between :
    {S : Type 0} (store : NodeStore S) (tree : BTree) (fuel h : ℕ) (s : S) (es : List Entry)
    (start end : Key) (r : IsTree store tree.root s h es)
    → h < fuel
    → length (leaves h r.top) < fuel
    → range store tree fuel start end s ≡ done (between start end es) s
unfolding range
range-between store tree fuel h s es start end r hf lf =
    let w = leaves_from-Start h start none none none r.top r.bounded r.chained in
    let (p, e, first) = leaf_page-first store start fuel h r.top s hf r.stored in
    let row = leaves_from h start r.top in
    let sorted =
      append-IsSorted w.skipped (row_entries row)
        (rw w.split at (Bounded-IsSorted h none none r.top r.bounded)) in
    let scan =
      scan_leaves-between store fuel start end row [] s (omega (arith, w.short))
        (leaves_from-All store start (Readable store s) h r.top
          (leaves-Readable store start s h r.top r.stored))
        w.linked sorted in
    let result : between start end es ≡ between start end (row_entries row) = rw (
      ← r.content,
      w.split,
      between-append start end w.skipped (row_entries row),
      between-Before start end w.skipped w.before,
    ) in
    rw (← r.at_root, e, result) (rw (first none) at scan)
