-- ===== src/Index/Sorted.antt =====
-- crates/prism-index/src/btree.rs: a leaf's position-based methods against the map's operations.
use prism_db.Common.{
  ◌≡◌, ◌≢◌, refl, true, false, List, [], ◌∷◌, none, some, if◌then◌else◌, get_elem?, All, arith,
  Bool-cases, inl, inr, subst,
}
use prism_db.Common.Order.{bytes_lt, bytes_eq, le_lt_trans, eq_of_bytes_eq, ne-bytes_lt}
use prism_db.Core.Record.{RecordId}
use prism_db.Index.Node.{
  Key, Entry, upsert, set_rid, position, stands_at, remove_at, leaf_get, Leaf,
}
use prism_db.Index.Entries.{IsSorted, After, find, put_entry, erase, find-After, erase_absent}

-- No order is needed: both stop at the first key that is not smaller.
pub upsert-put_entry :
    (es : List Entry) (k : Key) (rid : RecordId) → upsert es k rid ≡ put_entry k rid es
unfolding upsert put_entry position stands_at set_rid
upsert-put_entry [] k rid = refl
upsert-put_entry ((j, r) ∷ es) k rid = ground (arith, upsert-put_entry es k rid, eq_of_bytes_eq j k)

-- The keys behind a key that is not smaller are greater.
after_ge :
    (j k : Key) (es : List Entry)
    → bytes_lt j k ≡ false
    → bytes_eq j k ≡ false
    → All (λ (e : Entry). bytes_lt j e.0 ≡ true) es
    → All (λ (e : Entry). bytes_lt k e.0 ≡ true) es
after_ge j k [] h n a = tt
after_ge j k ((i, r) ∷ es) h n (a, as') = (le_lt_trans k j i h a, after_ge j k es h n as')

module _ (k : Key) where
  pub find-get_elem? :
      (es : List Entry)
      → IsSorted es
      → elim (get_elem? es (position es k)) [
        | none ↦ none
        | some e ↦ if bytes_eq e.0 k then some e.1 else none
      ]
        ≡ find k es
  unfolding position find
  find-get_elem? [] s = refl
  find-get_elem? ((j, r) ∷ es) (a, s) = elim (Bool-cases (bytes_lt j k)) [
    | inl p ↦ rw (p, ne-bytes_lt j k p) (find-get_elem? es s)
    | inr p ↦ elim (Bool-cases (bytes_eq j k)) [
      | inl q ↦ rw (p, q)
      | inr q ↦ rw (p, q, find-After k es (after_ge j k es p q a))
    ]
  ]

  pub leaf_get-find : (l : Leaf) → IsSorted l.entries → leaf_get l k ≡ find k l.entries
  unfolding leaf_get
  leaf_get-find l s = find-get_elem? l.entries s

  pub stands_at-find :
      (es : List Entry) → IsSorted es → stands_at es (position es k) k ≡ false → find k es ≡ none
  unfolding position find stands_at
  stands_at-find [] s h = refl
  stands_at-find ((j, r) ∷ es) (a, s) h = elim (Bool-cases (bytes_lt j k)) [
    | inl p ↦ ground (arith, ne-bytes_lt j k p, stands_at-find es s)
    | inr p ↦ elim (Bool-cases (bytes_eq j k)) [
      | inl q ↦ ground arith
      | inr q ↦ rw q (find-After k es (after_ge j k es p q a))
    ]
  ]

  pub remove_at-erase :
      (es : List Entry)
      → IsSorted es
      → stands_at es (position es k) k ≡ true
      → (remove_at (position es k) es ≡ erase k es) × (find k es ≢ none)
  unfolding position find stands_at erase
  remove_at-erase [] s h = cc
  remove_at-erase ((j, r) ∷ es) (a, s) h = elim (Bool-cases (bytes_lt j k)) [
    | inl p ↦ ground (arith, ne-bytes_lt j k p, remove_at-erase es s)
    | inr p ↦ elim (Bool-cases (bytes_eq j k)) [
      | inl q ↦ ground (
        arith,
        erase_absent k es
            (find-After k es (subst (λ (x : Key). All (After x) es) (eq_of_bytes_eq j k q) a)),
      )
      | inr q ↦ ground arith
    ]
  ]
