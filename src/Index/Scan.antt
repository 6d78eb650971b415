-- ===== src/Index/Scan.antt =====
-- crates/prism-index/src/btree.rs: `range`'s loops over linked leaves with sorted entries.
use prism_db.Common.{
  ℕ, zero, suc, ◌≡◌, ◌<◌, refl, ap, sym, ◌∙◌, true, false, List, [], ◌∷◌, ◌++◌, Option, none, some,
  length, All, append-All, All-imp, arith, Bool-cases, append_assoc, append-nil, inl, inr,
}
use prism_db.Common.Order.{bytes_lt, lt_asymm, le_lt_trans}
use prism_db.Common.Results.{ok}
use prism_db.Index.Node.{Key, Entry, leaf}
use prism_db.Index.Entries.{IsSorted, After, Before, between}
use prism_db.Index.Outcome.{done}
use prism_db.Index.Tree.{NodeStore, scan_entries, scan_leaves}
use prism_db.Index.Subtree.{LeafAt}

abbrev pub Past : Key → Entry → Type 0
Past end e = bytes_lt e.0 end ≡ false

between-Past : (start end : Key) (es : List Entry) → All (Past end) es → between start end es ≡ []
unfolding between
between-Past start end [] h = refl
between-Past start end ((k, r) ∷ es) (h, hs) = ground (arith, between-Past start end es hs)

pub between-append :
    (start end : Key) (us vs : List Entry)
    → between start end (us ++ vs) ≡ between start end us ++ between start end vs
unfolding between
between-append start end [] vs = refl
between-append start end ((k, r) ∷ us) vs = ground (arith, between-append start end us vs)

pub between-Before :
    (start end : Key) (us : List Entry) → All (Before start) us → between start end us ≡ []
unfolding between
between-Before start end [] h = refl
between-Before start end ((k, r) ∷ us) (h, hs) = ground (arith, between-Before start end us hs)

After-Past :
    (k end : Key) (es : List Entry) → bytes_lt k end ≡ false → All (After k) es → All (Past end) es
After-Past k end es h a = All-imp es (λ e p. later k end e.0 h p) a
  where
    later : (k end j : Key) → bytes_lt k end ≡ false → bytes_lt k j ≡ true → bytes_lt j end ≡ false
    later k end j h p = lt_asymm end j (le_lt_trans end k j h p)

-- The loop over a leaf puts out what lies between, and when it stops nothing that follows does.
scan_entries-between :
    (start end : Key) (es rest out : List Entry)
    → IsSorted (es ++ rest)
    → ((scan_entries start end es out).0 ≡ out ++ between start end es)
      × ((scan_entries start end es out).1 ≡ true → between start end rest ≡ [])
unfolding scan_entries between
scan_entries-between start end [] rest out s = (sym (append-nil out), λ h. cc h)
scan_entries-between start end ((k, r) ∷ es) rest out (a, s) = elim (Bool-cases (bytes_lt k end)) [
  | inl more ↦ elim (Bool-cases (bytes_lt k start)) [
    | inl p ↦ rw (more, p) (scan_entries-between start end es rest out s)
    | inr p ↦
        let (e, stop) = scan_entries-between start end es rest (out ++ (k, r) ∷ []) s in
        rw (more, p) (e ∙ append_assoc out ((k, r) ∷ []) (between start end es), stop)
  ]
  | inr stop ↦
      let (ae, ar) = append-All (After k) es rest a in
      let none_here = between-Past start end es (After-Past k end es stop ae) in
      elim (Bool-cases (bytes_lt k start)) [
        | inl p ↦
            rw (stop, p, none_here)
              (
                sym (append-nil out),
                λ _. between-Past start end rest (After-Past k end rest stop ar),
              )
        | inr p ↦
            rw (stop, p, none_here)
              (
                sym (append-nil out),
                λ _. between-Past start end rest (After-Past k end rest stop ar),
              )
      ]
]

between_nil : (start end : Key) (out : List Entry) → out ++ between start end [] ≡ out
unfolding between
between_nil start end out = append-nil out

-- Leaves in a row, each linked to the next, with `next` behind the last.
abbrev pub first_page : Option ℕ → List LeafAt → Option ℕ
first_page next [] = next
first_page next (l ∷ ls) = some l.page

abbrev pub Linked : Option ℕ → List LeafAt → Type 0
Linked next [] = Unit {0}
Linked next (l ∷ ls) = (l.node.right_sibling ≡ first_page next ls) × Linked next ls

abbrev pub row_entries : List LeafAt → List Entry
row_entries [] = []
row_entries (l ∷ ls) = l.node.entries ++ row_entries ls

pub row_entries-append :
    (us vs : List LeafAt) → row_entries (us ++ vs) ≡ row_entries us ++ row_entries vs
row_entries-append [] vs = refl
row_entries-append (u ∷ us) vs =
    rw (row_entries-append us vs, append_assoc u.node.entries (row_entries us) (row_entries vs))

append-IsSorted : (us vs : List Entry) → IsSorted (us ++ vs) → IsSorted vs
append-IsSorted [] vs s = s
append-IsSorted (u ∷ us) vs (a, s) = append-IsSorted us vs s

module _ {S : Type 0} (store : NodeStore S) where
  abbrev pub Readable : S → LeafAt → Type 0
  Readable s l = store.read_node s l.page ≡ ok (leaf l.node)

  pub scan_leaves-between :
      (fuel : ℕ) (start end : Key) (ls : List LeafAt) (out : List Entry) (s : S)
      → length ls < fuel
      → All (Readable s) ls
      → Linked none ls
      → IsSorted (row_entries ls)
      → scan_leaves store fuel start end (first_page none ls) out s
        ≡ done (out ++ between start end (row_entries ls)) s
  unfolding scan_leaves
  scan_leaves-between zero start end ls out s n rd lk so = absurd (omega arith)
  scan_leaves-between (suc fuel) start end [] out s n rd lk so =
      ap (λ o. done o s) (sym (between_nil start end out))
  scan_leaves-between (suc fuel) start end (l ∷ ls) out s n (rd, rds) (lk, lks) so =
      let (e, stop) = scan_entries-between start end l.node.entries (row_entries ls) out so in
      let split = between-append start end l.node.entries (row_entries ls) in
      rw (rd, scan_leaves, split)
        (elim (Bool-cases (scan_entries start end l.node.entries out).1) [
          | inl p ↦ rw (p, e, stop p, append-nil (between start end l.node.entries))
          | inr p ↦
              rw
                (
                  p,
                  e,
                  lk,
                  ← append_assoc out (between start end l.node.entries)
                      (between start end (row_entries ls)),
                )
                (scan_leaves-between fuel start end ls (out ++ between start end l.node.entries) s
                  (omega arith) rds lks (append-IsSorted l.node.entries (row_entries ls) so))
        ])
