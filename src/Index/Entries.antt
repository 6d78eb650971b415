-- ===== src/Index/Entries.antt =====
-- crates/prism-index/src/btree.rs: sorted entries as a map, which the methods are measured by.
use prism_db.Common.{
  ◌≡◌, refl, true, false, List, [], ◌∷◌, ◌++◌, Option, none, some, if◌then◌else◌, All, arith,
}
use prism_db.Common.Order.{
  bytes_lt, bytes_eq, lt_irrefl, lt_asymm, bytes_eq_refl, eq_of_bytes_eq, ne-bytes_lt,
}
use prism_db.Core.Record.{RecordId}
use prism_db.Index.Node.{Key, Entry}

-- Bounds on keys: an absent bound is no condition.
abbrev pub AtLeast : Option Key → Key → Type 0
AtLeast none k = Unit {0}
AtLeast (some b) k = bytes_lt k b ≡ false

abbrev pub Over : Option Key → Key → Type 0
Over none k = Unit {0}
Over (some b) k = bytes_lt b k ≡ true

abbrev pub Below : Key → Option Key → Type 0
Below k none = Unit {0}
Below k (some b) = bytes_lt k b ≡ true

abbrev pub InRange : Option Key → Option Key → Entry → Type 0
InRange lo hi e = AtLeast lo e.0 × Below e.0 hi

abbrev pub After : Key → Entry → Type 0
After k e = bytes_lt k e.0 ≡ true

abbrev pub Before : Key → Entry → Type 0
Before k e = bytes_lt e.0 k ≡ true

abbrev pub IsSorted : List Entry → Type 0
IsSorted [] = Unit {0}
IsSorted (e ∷ es) = All (After e.0) es × IsSorted es

-- The map's operations: the entry of a key, the entries with one put in or taken out, and those
-- from `start` on and before `end`.
unfoldable pub find : Key → List Entry → Option RecordId
find k [] = none
find k ((j, r) ∷ es) = if bytes_eq j k then some r else find k es

unfoldable pub put_entry : Key → RecordId → List Entry → List Entry
put_entry k rid [] = (k, rid) ∷ []
put_entry k rid ((j, r) ∷ es) =
    if bytes_lt j k
    then (j, r) ∷ put_entry k rid es
    else if bytes_eq j k
    then (k, rid) ∷ es
    else (k, rid) ∷ (j, r) ∷ es

unfoldable pub erase : Key → List Entry → List Entry
erase k [] = []
erase k ((j, r) ∷ es) = let rest = erase k es in if bytes_eq j k then rest else (j, r) ∷ rest

unfoldable pub between : Key → Key → List Entry → List Entry
between start end [] = []
between start end ((j, r) ∷ es) =
    let rest = between start end es in
    if bytes_lt j start then rest else if bytes_lt j end then (j, r) ∷ rest else rest

pub find-put_entry :
    (k j : Key) (rid : RecordId) (es : List Entry)
    → find j (put_entry k rid es) ≡ (if bytes_eq k j then some rid else find j es)
unfolding find put_entry
find-put_entry k j rid [] = refl
find-put_entry k j rid ((i, r) ∷ es) = ground (
  arith,
  find-put_entry k j rid es,
  eq_of_bytes_eq i k,
  eq_of_bytes_eq i j,
  eq_of_bytes_eq k j,
  ne-bytes_lt i k,
)

pub find-erase :
    (k j : Key) (es : List Entry) → find j (erase k es) ≡ (if bytes_eq k j then none else find j es)
unfolding find erase
find-erase k j [] = ground arith
find-erase k j ((i, r) ∷ es) = ground (
  arith,
  find-erase k j es,
  eq_of_bytes_eq i k,
  eq_of_bytes_eq i j,
  eq_of_bytes_eq k j,
  bytes_eq_refl i,
)

-- Entries on one side of the key do not take part.
pub find-append-Before :
    (k : Key) (us vs : List Entry) → All (Before k) us → find k (us ++ vs) ≡ find k vs
unfolding find
find-append-Before k [] vs h = refl
find-append-Before k ((j, r) ∷ us) vs (h, hs) =
    ground (arith, find-append-Before k us vs hs, ne-bytes_lt j k h)

pub find-After : (k : Key) (vs : List Entry) → All (After k) vs → find k vs ≡ none
unfolding find
find-After k [] h = refl
find-After k ((j, r) ∷ vs) (h, hs) =
    ground (arith, find-After k vs hs, lt_irrefl k, eq_of_bytes_eq j k)

pub find-append-After :
    (k : Key) (us vs : List Entry) → All (After k) vs → find k (us ++ vs) ≡ find k us
unfolding find
find-append-After k [] vs h = find-After k vs h
find-append-After k ((j, r) ∷ us) vs h = ground (arith, find-append-After k us vs h)

pub put_entry-append-Before :
    (k : Key) (rid : RecordId) (us vs : List Entry)
    → All (Before k) us
    → put_entry k rid (us ++ vs) ≡ us ++ put_entry k rid vs
unfolding put_entry
put_entry-append-Before k rid [] vs h = refl
put_entry-append-Before k rid ((j, r) ∷ us) vs (h, hs) =
    ground (arith, put_entry-append-Before k rid us vs hs)

put_entry-After :
    (k : Key) (rid : RecordId) (vs : List Entry)
    → All (After k) vs
    → put_entry k rid vs ≡ (k, rid) ∷ vs
unfolding put_entry
put_entry-After k rid [] h = refl
put_entry-After k rid ((j, r) ∷ vs) (h, hs) =
    ground (arith, lt_asymm k j h, lt_irrefl k, eq_of_bytes_eq j k)

pub put_entry-append-After :
    (k : Key) (rid : RecordId) (us vs : List Entry)
    → All (After k) vs
    → put_entry k rid (us ++ vs) ≡ put_entry k rid us ++ vs
unfolding put_entry
put_entry-append-After k rid [] vs h = put_entry-After k rid vs h
put_entry-append-After k rid ((j, r) ∷ us) vs h =
    ground (arith, put_entry-append-After k rid us vs h)

pub erase_absent : (k : Key) (es : List Entry) → find k es ≡ none → erase k es ≡ es
unfolding erase find
erase_absent k [] h = refl
erase_absent k ((j, r) ∷ es) h = ground (arith, erase_absent k es)

erase-After : (k : Key) (vs : List Entry) → All (After k) vs → erase k vs ≡ vs
erase-After k vs h = erase_absent k vs (find-After k vs h)

pub erase-append-Before :
    (k : Key) (us vs : List Entry) → All (Before k) us → erase k (us ++ vs) ≡ us ++ erase k vs
unfolding erase
erase-append-Before k [] vs h = refl
erase-append-Before k ((j, r) ∷ us) vs (h, hs) =
    ground (arith, erase-append-Before k us vs hs, ne-bytes_lt j k h)

pub erase-append-After :
    (k : Key) (us vs : List Entry) → All (After k) vs → erase k (us ++ vs) ≡ erase k us ++ vs
unfolding erase
erase-append-After k [] vs h = erase-After k vs h
erase-append-After k ((j, r) ∷ us) vs h = ground (arith, erase-append-After k us vs h)
