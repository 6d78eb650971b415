-- ===== src/Protocol/Query/RoundTrip.antt =====
-- crates/prism-protocol/src/data.rs: document queries, encoded and decoded.
use prism_db.Common.{
  ℕ, zero, suc, ◌+◌, ◌≤◌, ◌≡◌, refl, sym, subst, Bool, true, List, [], length, All, arith,
}
use prism_db.Common.Results.{ok}
use prism_db.Protocol.Utf8.{is_utf8}
use prism_db.Protocol.Codec.{◌⊳◌, put_u8, put_bytes_u16, put_count, put_each}
use prism_db.Protocol.Encodes.{Encodes, then-Encodes, map-Encodes, done-Encodes, then_end-Encodes}
use prism_db.Protocol.Fields.{u8-Encodes, count-Encodes}
use prism_db.Protocol.Value.{Value, encode_tagged}
use prism_db.Protocol.Value.RoundTrip.{IsValue}
use prism_db.Protocol.Query.{
  DocQuery, all, eq, ne, gt, lt, gte, lte, in_set, nin, exists, and, or, not, DocQueries, none, sub,
  sub_count, field_op, field_set, field_exists, encode, encode_each, to_bytes, read_op, read_set,
  read_subs, decode_group, read_tagged, decode, from_bytes,
}
use prism_db.Protocol.Query.Depth.{
  depth, depth_each, depth_pos, Grows, Encodes-Grows, u8-Grows, then-Grows, at_least, done-Grows,
}
use prism_db.Protocol.Query.Leaves.{
  IsQuery, AreQueries, op-Encodes, set-Encodes, exists-Encodes, Nested, NestedEach, leaf,
}

group-Encodes :
    (n : ℕ) (subs : DocQueries)
    → NestedEach subs n
    → Encodes
        (put_count "query.group" (sub_count subs) ⊳ encode_each subs)
        (decode_group (decode n))
        subs
unfolding decode_group
group-Encodes n subs h = then-Encodes _ (count-Encodes _ _ (sub_count subs)) h.encodes

group-Grows :
    (n : ℕ) (tag : ℕ) (subs : DocQueries)
    → NestedEach subs n
    → Grows
        (put_u8 tag ⊳ (put_count "query.group" (sub_count subs) ⊳ encode_each subs))
        (suc (depth_each subs))
group-Grows n tag subs h = at_least (omega arith) (
    then-Grows (u8-Grows tag) (
      then-Grows (Encodes-Grows (count-Encodes "query.group_count" "query.group" (sub_count subs)))
        h.grows))

all-Nested : (n : ℕ) → Nested all (suc n)
unfolding encode decode read_tagged depth put_u8
all-Nested n = record {
  encodes = then-Encodes (read_tagged (decode n)) (u8-Encodes _ 0) (done-Encodes all);
  grows = u8-Grows 0;
}

op-Nested :
    (n tag : ℕ) (op : List ℕ → Value → DocQuery) (f : List ℕ) (v : Value)
    → is_utf8 f ≡ true
    → IsValue v
    → encode (op f v) ≡ field_op tag f v
    → read_tagged (decode n) tag ≡ read_op op
    → depth (op f v) ≡ 1
    → Nested (op f v) (suc n)
unfolding field_op
op-Nested n tag op f v h hv w r d =
    let (e, g) = leaf tag n (op f v) (
      subst (λ p. Encodes (put_bytes_u16 "query.field" f ⊳ encode_tagged v) p (op f v)) (sym r)
        (op-Encodes op f v h hv)) in
    record {
      encodes = subst (λ w. Encodes w (decode (suc n)) (op f v)) (sym w) e;
      grows =
          subst (λ w. Grows w (depth (op f v))) (sym w)
            (subst (Grows (field_op tag f v)) (sym d) g);
    }

set-Nested :
    (n tag : ℕ) (op : List ℕ → List Value → DocQuery) (f : List ℕ) (vs : List Value)
    → is_utf8 f ≡ true
    → All IsValue vs
    → encode (op f vs) ≡ field_set tag f vs
    → read_tagged (decode n) tag ≡ read_set op
    → depth (op f vs) ≡ 1
    → Nested (op f vs) (suc n)
unfolding field_set
set-Nested n tag op f vs h hv w r d =
    let (e, g) = leaf tag n (op f vs) (
      subst
        (λ p.
          Encodes
            (put_bytes_u16 "query.field" f
              ⊳ (put_count "query.set" (length vs) ⊳ put_each encode_tagged vs))
            p (op f vs))
        (sym r) (set-Encodes op f vs h hv)) in
    record {
      encodes = subst (λ w. Encodes w (decode (suc n)) (op f vs)) (sym w) e;
      grows =
          subst (λ w. Grows w (depth (op f vs))) (sym w)
            (subst (Grows (field_set tag f vs)) (sym d) g);
    }

exists-Nested :
    (n : ℕ) (f : List ℕ) (want : Bool) → is_utf8 f ≡ true → Nested (exists f want) (suc n)
unfolding encode field_exists read_tagged depth
exists-Nested n f want h =
    let (e, g) = leaf 9 n (exists f want) (exists-Encodes f want h) in
    record { encodes = e; grows = g }

and-Nested : (n : ℕ) (subs : DocQueries) → NestedEach subs n → Nested (and subs) (suc n)
unfolding encode decode read_tagged depth
and-Nested n subs h = record {
  encodes =
      then-Encodes (read_tagged (decode n)) (u8-Encodes _ 10)
        (map-Encodes and (group-Encodes n subs h));
  grows = group-Grows n 10 subs h;
}

or-Nested : (n : ℕ) (subs : DocQueries) → NestedEach subs n → Nested (or subs) (suc n)
unfolding encode decode read_tagged depth
or-Nested n subs h = record {
  encodes =
      then-Encodes (read_tagged (decode n)) (u8-Encodes _ 11)
        (map-Encodes or (group-Encodes n subs h));
  grows = group-Grows n 11 subs h;
}

not-Nested : (n : ℕ) (inner : DocQuery) → Nested inner n → Nested (not inner) (suc n)
unfolding encode decode read_tagged depth
not-Nested n inner h = record {
  encodes = then-Encodes (read_tagged (decode n)) (u8-Encodes _ 12) (map-Encodes not h.encodes);
  grows = at_least (omega arith) (then-Grows (u8-Grows 12) h.grows);
}

none-NestedEach : (n : ℕ) → NestedEach none n
unfolding encode_each read_subs sub_count depth_each
none-NestedEach n = record { encodes = done-Encodes none; grows = done-Grows }

sub-NestedEach :
    (n : ℕ) (q : DocQuery) (qs : DocQueries)
    → Nested q n
    → NestedEach qs n
    → NestedEach (sub q qs) n
unfolding encode_each read_subs sub_count depth_each
sub-NestedEach n q qs h hs = record {
  encodes = then-Encodes _ h.encodes (map-Encodes (sub q) hs.encodes);
  grows = at_least (omega arith) (then-Grows h.grows hs.grows);
}

mutual
  unfolding IsQuery depth depth_each encode read_tagged

  query-Nested : (n : ℕ) (q : DocQuery) → depth q ≤ suc n → IsQuery q → Nested q (suc n)
  query-Nested n all d h = all-Nested n
  query-Nested n (eq f v) d (h, hv) = op-Nested n 1 eq f v h hv refl refl refl
  query-Nested n (ne f v) d (h, hv) = op-Nested n 2 ne f v h hv refl refl refl
  query-Nested n (gt f v) d (h, hv) = op-Nested n 3 gt f v h hv refl refl refl
  query-Nested n (lt f v) d (h, hv) = op-Nested n 4 lt f v h hv refl refl refl
  query-Nested n (gte f v) d (h, hv) = op-Nested n 5 gte f v h hv refl refl refl
  query-Nested n (lte f v) d (h, hv) = op-Nested n 6 lte f v h hv refl refl refl
  query-Nested n (in_set f vs) d (h, hv) = set-Nested n 7 in_set f vs h hv refl refl refl
  query-Nested n (nin f vs) d (h, hv) = set-Nested n 8 nin f vs h hv refl refl refl
  query-Nested n (exists f want) d h = exists-Nested n f want h
  query-Nested n (and subs) d h = and-Nested n subs (queries-NestedEach n subs (omega (arith, d)) h)
  query-Nested n (or subs) d h = or-Nested n subs (queries-NestedEach n subs (omega (arith, d)) h)
  query-Nested zero (not inner) d h = absurd (omega (arith, d, depth_pos inner))
  query-Nested (suc n) (not inner) d h =
      not-Nested (suc n) inner (query-Nested n inner (omega (arith, d)) h)

  queries-NestedEach :
      (n : ℕ) (qs : DocQueries) → depth_each qs ≤ n → AreQueries qs → NestedEach qs n
  queries-NestedEach n none d h = none-NestedEach n
  queries-NestedEach zero (sub q qs) d h = absurd (omega (arith, d, depth_pos q))
  queries-NestedEach (suc n) (sub q qs) d (h, hs) =
      sub-NestedEach (suc n) q qs (query-Nested n q (omega (arith, d)) h)
        (queries-NestedEach (suc n) qs (omega (arith, d)) hs)

-- A document query of any nesting, whose fields are UTF-8, whose values are in range and whose
-- encoding succeeds, is read back from its bytes.
pub from_bytes-to_bytes_query :
    (q : DocQuery) (bytes : List ℕ) → IsQuery q → to_bytes q ≡ ok bytes → from_bytes bytes ≡ ok q
unfolding to_bytes from_bytes
from_bytes-to_bytes_query q bytes h e =
    let shallow = query-Nested (depth q) q (omega arith) h in
    let enough = shallow.grows.grown [] bytes e in
    then_end-Encodes (encode q) (decode (length bytes + 1)) q bytes
      (subst (λ n. Encodes (encode q) (decode n) q) (omega arith)
        (query-Nested (length bytes) q (omega (arith, enough)) h).encodes)
      e
