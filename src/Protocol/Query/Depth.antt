-- ===== src/Protocol/Query/Depth.antt =====
-- crates/prism-protocol/src/data.rs: a query takes a byte at least for each level of its nesting.
use prism_db.Common.{
  ℕ, suc, ◌+◌, ◌≤◌, ◌≡◌, inl, inr, ◌∙◌, ap, sym, max, List, [], ◌∷◌, ◌++◌, length, length-append,
  arith,
}
use prism_db.Common.Results.{ok, and_then}
use prism_db.Protocol.Errors.{ProtocolError}
use prism_db.Protocol.Codec.{Writer, ◌⊳◌, done, put_u8}
use prism_db.Protocol.Encodes.{Encodes, Result-cases}
use prism_db.Common.Parsers.{Parser}
use prism_db.Protocol.Query.{DocQuery, and, or, not, DocQueries, none, sub}

unfoldable mutual
  pub depth : DocQuery → ℕ
  depth (and subs) = suc (depth_each subs)
  depth (or subs) = suc (depth_each subs)
  depth (not inner) = suc (depth inner)
  depth q = 1

  pub depth_each : DocQueries → ℕ
  depth_each none = 0
  depth_each (sub q qs) = max (depth q) (depth_each qs)

pub depth_pos : (q : DocQuery) → 1 ≤ depth q
unfolding depth
depth_pos (and subs) = omega arith
depth_pos (or subs) = omega arith
depth_pos (not inner) = omega arith
depth_pos q = omega arith

-- What a writer appends is so many bytes at least.
pub record Grows (w : Writer) (n : ℕ) : Type 0 where
  pub grown : (out out' : List ℕ) → w out ≡ ok out' → length out + n ≤ length out'

pub Encodes-Grows :
    {A : Type 0} {w : Writer} {p : Parser ProtocolError A} {v : A} → Encodes w p v → Grows w 0
Encodes-Grows h = record {
  grown = λ out out' e.
      let (bs, app, reads) = h.appended out out' e in
      omega (arith, ap length app, length-append out bs);
}

pub u8-Grows : (v : ℕ) → Grows (put_u8 v) 1
unfolding put_u8
u8-Grows v = record {
  grown = λ out out' e.
      let app : out ++ v ∷ [] ≡ out' = cc e in
      omega (arith, ap length app, length-append out (v ∷ []));
}

pub then-Grows : {w w' : Writer} {m n : ℕ} → Grows w m → Grows w' n → Grows (w ⊳ w') (m + n)
then-Grows {w = w} {w' = w'} g h = record {
  grown = λ out out' e. elim (Result-cases (w out)) [
    | inl (x, failed) ↦ absurd (cc (e, ap (λ r. and_then r w') failed))
    | inr (mid, wrote) ↦
        omega
          (arith, g.grown out mid wrote, h.grown mid out' (sym (ap (λ r. and_then r w') wrote) ∙ e))
  ];
}

pub at_least : {w : Writer} {m n : ℕ} → m ≤ n → Grows w n → Grows w m
at_least le g = record { grown = λ out out' e. omega (arith, le, g.grown out out' e) }

pub done-Grows : Grows done 0
done-Grows = record {
  grown = λ out out' e. let same : out ≡ out' = cc e in omega (arith, ap length same);
}
