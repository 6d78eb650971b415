-- ===== src/Index/Leaves.antt =====
-- crates/prism-index/src/btree.rs: the order of a tree's entries, and its leaves in a row.
use prism_db.Common.{
  ℕ, zero, suc, false, if◌then◌else◌, ◌≡◌, refl, ◌∙◌, List, [], ◌∷◌, ◌++◌, Option, some, All,
  All-append, All-imp, append-nil,
}
use prism_db.Common.Order.{bytes_lt, lt_le_trans}
use prism_db.Index.Node.{Key, Entry}
use prism_db.Index.Entries.{IsSorted, After, Before}
use prism_db.Index.Forest.{Forest, last, more, gather, Within}
use prism_db.Index.Placing.{gather-InRange}
use prism_db.Index.Subtree.{
  LeafAt, Subtree, entries, Bounded, Bounded-InRange, Chain, Chained, first_leaf, head,
}
use prism_db.Index.Scan.{Linked, first_page, row_entries, row_entries-append}

-- The leaves of a subtree, in their order, and those from the one that a key leads to.
abbrev pub leaves : (h : ℕ) → Subtree h → List LeafAt
leaves zero t = t ∷ []
leaves (suc h) t = gather (leaves h) t.kids

-- A forest's leaves from a key's way on, by those of one subtree.
unfoldable pub from_kids :
    {T : Type 0} → (T → List LeafAt) → (T → List LeafAt) → Key → Forest T → List LeafAt
from_kids all own k (last t) = own t
from_kids all own k (more t j f) =
    let rest = from_kids all own k f in if bytes_lt k j then own t ++ gather all f else rest

unfoldable pub leaves_from : (h : ℕ) → Key → Subtree h → List LeafAt
unfolding from_kids
leaves_from zero k t = t ∷ []
leaves_from (suc h) k t = from_kids (leaves h) (leaves_from h k) k t.kids

IsSorted-append :
    (us vs : List Entry) (j : Key)
    → IsSorted us
    → IsSorted vs
    → All (Before j) us
    → All (λ (e : Entry). bytes_lt e.0 j ≡ false) vs
    → IsSorted (us ++ vs)
IsSorted-append [] vs j su sv bu av = sv
IsSorted-append (u ∷ us) vs j (au, su) sv (b, bu) av = (
  All-append (After u.0) us vs au (All-imp vs (λ e h. lt_le_trans u.0 j e.0 b h) av),
  IsSorted-append us vs j su sv bu av,
)

pub Bounded-IsSorted :
    (h : ℕ) (lo hi : Option Key) (t : Subtree h) → Bounded h lo hi t → IsSorted (entries h t)
Bounded-IsSorted zero lo hi t b = b.0
Bounded-IsSorted (suc h) lo hi t b = kids_sorted h lo hi t.kids b (Bounded-IsSorted h)
  where
    kids_sorted :
        (h : ℕ) (lo hi : Option Key) (f : Forest (Subtree h))
        → Within (Bounded h) lo hi f
        → ((lo hi : Option Key) (t : Subtree h) → Bounded h lo hi t → IsSorted (entries h t))
        → IsSorted (gather (entries h) f)
    kids_sorted h lo hi (last t) b ih = ih lo hi t b
    kids_sorted h lo hi (more t j f) (o, bj, w, ws) ih =
        IsSorted-append (entries h t) (gather (entries h) f) j (ih lo (some j) t w)
          (kids_sorted h (some j) hi f ws ih)
          (All-imp (entries h t) (λ e r. r.1) (Bounded-InRange h lo (some j) t w))
          (All-imp (gather (entries h) f) (λ e r. r.0)
            (gather-InRange (Bounded h) (entries h) (Bounded-InRange h) (some j) hi f ws))

-- Two rows of leaves, one behind the other.
pub Linked-append :
    (next : Option ℕ) (us vs : List LeafAt)
    → Linked (first_page next vs) us
    → Linked next vs
    → Linked next (us ++ vs)
Linked-append next [] vs lu lv = lv
Linked-append next (u ∷ []) vs (lu, _) lv = (lu, lv)
Linked-append next (u ∷ w ∷ us) vs (lu, lw) lv = (lu, Linked-append next (w ∷ us) vs lw lv)

pub first_page-append :
    (next : Option ℕ) (us vs : List LeafAt)
    → first_page next (us ++ vs) ≡ first_page (first_page next vs) us
first_page-append next [] vs = refl
first_page-append next (u ∷ us) vs = refl

-- What holds of the leaves of a subtree, from what holds of its own subtrees.
record Row (h : ℕ) (next : Option ℕ) (t : Subtree h) : Type 0 where
  linked : Linked next (leaves h t)
  first : first_page next (leaves h t) ≡ some (first_leaf h t)
  content : row_entries (leaves h t) ≡ entries h t

kids-Row :
    (h : ℕ) (next : Option ℕ) (f : Forest (Subtree h))
    → Chain (Chained h) (first_leaf h) next f
    → ((next : Option ℕ) (t : Subtree h) → Chained h next t → Row h next t)
    → Linked next (gather (leaves h) f)
      × (first_page next (gather (leaves h) f) ≡ some (first_leaf h (head f)))
      × (row_entries (gather (leaves h) f) ≡ gather (entries h) f)
kids-Row h next (last t) c ih = let r = ih next t c in (r.linked, r.first, r.content)
kids-Row h next (more t j f) (c, cs) ih =
    let r = ih (some (first_leaf h (head f))) t c in
    let (l, p, e) = kids-Row h next f cs ih in
    (
      Linked-append next (leaves h t) (gather (leaves h) f) (rw p r.linked) l,
      first_page-append next (leaves h t) (gather (leaves h) f) ∙ (rw p r.first),
      row_entries-append (leaves h t) (gather (leaves h) f) ∙ rw (r.content, e),
    )

leaves-Row : (h : ℕ) (next : Option ℕ) (t : Subtree h) → Chained h next t → Row h next t
leaves-Row zero next t c = record {
  linked = (c, tt);
  first = refl;
  content = append-nil t.node.entries;
}
leaves-Row (suc h) next t c =
    let (l, f, e) = kids-Row h next t.kids c (leaves-Row h) in
    record { linked = l; first = f; content = e }

pub forest_row :
    (h : ℕ) (next : Option ℕ) (f : Forest (Subtree h))
    → Chain (Chained h) (first_leaf h) next f
    → Linked next (gather (leaves h) f)
      × (first_page next (gather (leaves h) f) ≡ some (first_leaf h (head f)))
      × (row_entries (gather (leaves h) f) ≡ gather (entries h) f)
forest_row h next f c = kids-Row h next f c (leaves-Row h)
