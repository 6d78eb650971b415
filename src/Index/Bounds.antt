-- ===== src/Index/Bounds.antt =====
-- crates/prism-index/src/btree.rs: the order and the bounds of a leaf's entries under its methods.
use prism_db.Common.{
  ◌≡◌, ◌<◌, true, false, List, [], ◌∷◌, ◌++◌, Option, none, some, length, All, arith, Bool-cases,
  inl, inr, append-All, All-imp,
}
use prism_db.Common.Order.{
  bytes_lt, bytes_eq, lt_irrefl, lt_asymm, lt_trans, le_antisymm, le_lt_trans, bytes_eq_refl,
  eq_of_bytes_eq,
}
use prism_db.Core.Record.{RecordId}
use prism_db.Index.Node.{Key, Entry}
use prism_db.Index.Entries.{
  AtLeast, Over, Below, InRange, After, Before, IsSorted, put_entry, erase,
}

abbrev pub IsBounded : Option Key → Option Key → List Entry → Type 0
IsBounded lo hi es = IsSorted es × All (InRange lo hi) es

pub put_entry-All :
    (P : Entry → Type 0) (k : Key) (rid : RecordId) (es : List Entry)
    → P (k, rid)
    → All P es
    → All P (put_entry k rid es)
unfolding put_entry
put_entry-All P k rid [] p h = (p, tt)
put_entry-All P k rid ((j, r) ∷ es) p (h, hs) = elim (Bool-cases (bytes_lt j k)) [
  | inl a ↦ rw a (h, put_entry-All P k rid es p hs)
  | inr a ↦ elim (Bool-cases (bytes_eq j k)) [
    | inl b ↦ rw (a, b) (p, hs)
    | inr b ↦ rw (a, b) (p, (h, hs))
  ]
]

pub erase-All : (P : Entry → Type 0) (k : Key) (es : List Entry) → All P es → All P (erase k es)
unfolding erase
erase-All P k [] h = h
erase-All P k ((j, r) ∷ es) (h, hs) = elim (Bool-cases (bytes_eq j k)) [
  | inl b ↦ rw b (erase-All P k es hs)
  | inr b ↦ rw b (h, erase-All P k es hs)
]

lt_of_ne : (j k : Key) → bytes_lt j k ≡ false → bytes_eq j k ≡ false → bytes_lt k j ≡ true
lt_of_ne j k h n = elim (Bool-cases (bytes_lt k j)) [
  | inl p ↦ p
  | inr p ↦ ground (arith, le_antisymm j k h p, bytes_eq_refl j)
]

After-trans :
    (k j : Key) (es : List Entry) → bytes_lt k j ≡ true → All (After j) es → All (After k) es
After-trans k j es h a = All-imp es (λ e. lt_trans k j e.0 h) a

pub put_entry-IsSorted :
    (k : Key) (rid : RecordId) (es : List Entry) → IsSorted es → IsSorted (put_entry k rid es)
unfolding put_entry
put_entry-IsSorted k rid [] s = (tt, tt)
put_entry-IsSorted k rid ((j, r) ∷ es) (a, s) = elim (Bool-cases (bytes_lt j k)) [
  | inl p ↦ rw p (put_entry-All (After j) k rid es p a, put_entry-IsSorted k rid es s)
  | inr p ↦ elim (Bool-cases (bytes_eq j k)) [
    | inl q ↦ rw (p, q) (rw (eq_of_bytes_eq j k q) at a, s)
    | inr q ↦ let less = lt_of_ne j k p q in rw (p, q) ((less, After-trans k j es less a), (a, s))
  ]
]

pub erase-IsSorted : (k : Key) (es : List Entry) → IsSorted es → IsSorted (erase k es)
unfolding erase
erase-IsSorted k [] s = s
erase-IsSorted k ((j, r) ∷ es) (a, s) = elim (Bool-cases (bytes_eq j k)) [
  | inl q ↦ rw q (erase-IsSorted k es s)
  | inr q ↦ rw q (erase-All (After j) k es a, erase-IsSorted k es s)
]

module _ (lo hi : Option Key) where
  pub put_entry-IsBounded :
      (k : Key) (rid : RecordId) (es : List Entry)
      → AtLeast lo k
      → Below k hi
      → IsBounded lo hi es
      → IsBounded lo hi (put_entry k rid es)
  put_entry-IsBounded k rid es a b (s, r) =
      (put_entry-IsSorted k rid es s, put_entry-All (InRange lo hi) k rid es (a, b) r)

  pub erase-IsBounded :
      (k : Key) (es : List Entry) → IsBounded lo hi es → IsBounded lo hi (erase k es)
  erase-IsBounded k es (s, r) = (erase-IsSorted k es s, erase-All (InRange lo hi) k es r)

Over-of_AtLeast : (lo : Option Key) (j k : Key) → AtLeast lo j → bytes_lt j k ≡ true → Over lo k
Over-of_AtLeast none j k a h = tt
Over-of_AtLeast (some b) j k a h = le_lt_trans b j k a h

append-IsSorted :
    (us vs : List Entry) (k : Key) (r : RecordId)
    → IsSorted (us ++ (k, r) ∷ vs)
    → IsSorted us × All (Before k) us × IsSorted ((k, r) ∷ vs)
append-IsSorted [] vs k r s = (tt, tt, s)
append-IsSorted ((j, q) ∷ us) vs k r (a, s) =
    let (su, bu, sv) = append-IsSorted us vs k r s in
    let (au, av) = append-All (After j) us ((k, r) ∷ vs) a in ((au, su), (av.0, bu), sv)

narrow :
    (lo hi : Option Key) (k : Key) (us : List Entry)
    → All (InRange lo hi) us
    → All (Before k) us
    → All (InRange lo (some k)) us
narrow lo hi k [] a b = tt
narrow lo hi k (e ∷ us) (a, au) (b, bu) = ((a.0, b), narrow lo hi k us au bu)

raise :
    (lo hi : Option Key) (k : Key) (us : List Entry)
    → All (InRange lo hi) us
    → All (After k) us
    → All (InRange (some k) hi) us
raise lo hi k [] a b = tt
raise lo hi k (e ∷ us) (a, au) (b, bu) = ((lt_asymm k e.0 b, a.1), raise lo hi k us au bu)

-- A leaf cut before the entry of `k`, with something left of it.
pub append-IsBounded :
    (lo hi : Option Key) (us vs : List Entry) (k : Key) (r : RecordId)
    → 0 < length us
    → IsBounded lo hi (us ++ (k, r) ∷ vs)
    → Over lo k × Below k hi × IsBounded lo (some k) us × IsBounded (some k) hi ((k, r) ∷ vs)
append-IsBounded lo hi [] vs k r n (s, a) = absurd (omega arith)
append-IsBounded lo hi ((j, q) ∷ us) vs k r n (s, a) =
    let (su, bu, sv) = append-IsSorted ((j, q) ∷ us) vs k r s in
    let (au, av) = append-All (InRange lo hi) ((j, q) ∷ us) ((k, r) ∷ vs) a in
    (
      Over-of_AtLeast lo j k au.0.0 bu.0,
      av.0.1,
      (su, narrow lo hi k ((j, q) ∷ us) au bu),
      (sv, ((lt_irrefl k, av.0.1), raise lo hi k vs av.1 sv.0)),
    )
