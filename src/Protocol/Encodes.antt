-- ===== src/Protocol/Encodes.antt =====
-- A writer and a reader that agree: what the writer appends when it succeeds is what the reader
-- takes off the front to get the value.
use prism_db.Common.{
  ℕ, ◌≡◌, ◌∙◌, refl, ap, sym, ◌⊎◌, inl, inr, List, [], ◌∷◌, ◌++◌, length, append_assoc, append-nil,
  All,
}
use prism_db.Common.Results.{Result, ok, err, and_then}
use prism_db.Common.Parsers.{Parser, Reads, ◌>>=◌, return, repeat}
use prism_db.Protocol.Errors.{ProtocolError}
use prism_db.Protocol.Codec.{Writer, ◌⊳◌, done, put_each, then_end}

pub record Encodes {ℓ} {A : Type ℓ} (w : Writer) (p : Parser ProtocolError A) (v : A) : Type ℓ where
  pub appended :
      (out out' : List ℕ) → w out ≡ ok out' → (bs : List ℕ) × (out' ≡ out ++ bs) × Reads p bs v

-- What a writer appends whatever is written so far.
pub appends-Encodes {ℓ} :
    {A : Type ℓ} (w : Writer) (p : Parser ProtocolError A) (v : A) (bs : List ℕ)
    → ((out : List ℕ) → w out ≡ ok (out ++ bs))
    → Reads p bs v
    → Encodes w p v
appends-Encodes w p v bs appends reads = record {
  appended = λ out out' e. (bs, cc (e, appends out), reads);
}

pub done-Encodes {ℓ} : {A : Type ℓ} (v : A) → Encodes done (return v) v
done-Encodes v = record { appended = λ out out' e. ([], cc (e, append-nil out), λ rest. refl) }

pub Result-cases {ℓ κ} :
    {E : Type κ} {A : Type ℓ} (r : Result E A) → ((e : E) × (r ≡ err e)) ⊎ ((a : A) × (r ≡ ok a))
Result-cases (err e) = inl (e, refl)
Result-cases (ok a) = inr (a, refl)

pub then-Encodes {ℓ κ} :
    {A : Type ℓ} {B : Type κ} {w w' : Writer} {p : Parser ProtocolError A} {a : A} {v : B}
    (k : A → Parser ProtocolError B)
    → Encodes w p a
    → Encodes w' (k a) v
    → Encodes (w ⊳ w') (p >>= k) v
then-Encodes {w = w} {w' = w'} k h h' = record {
  appended = λ out out' e. elim (Result-cases (w out)) [
    | inl (x, failed) ↦ absurd (cc (e, ap (λ r. and_then r w') failed))
    | inr (mid, wrote) ↦
        let (bs, e1, r1) = h.appended out mid wrote in
        let (bs', e2, r2) = h'.appended mid out' (sym (ap (λ r. and_then r w') wrote) ∙ e) in
        (
          bs ++ bs',
          e2 ∙ ap (λ m. m ++ bs') e1 ∙ append_assoc out bs bs',
          λ rest. rw (append_assoc bs bs' rest, r1 (bs' ++ rest)) (r2 rest),
        )
  ];
}

pub map-Encodes {ℓ κ} :
    {A : Type ℓ} {B : Type κ} {w : Writer} {p : Parser ProtocolError A} {a : A} (f : A → B)
    → Encodes w p a
    → Encodes w (p >>= (λ x. return (f x))) (f a)
map-Encodes f h = record {
  appended = λ out out' e.
      let (bs, app, reads) = h.appended out out' e in (bs, app, λ rest. rw (reads rest));
}

-- A loop over a list and the loop that reads as many.
pub put_each-Encodes {ℓ} :
    {A : Type ℓ} (w : A → Writer) (p : Parser ProtocolError A) (xs : List A) (P : A → Type 0)
    → ((x : A) → P x → Encodes (w x) p x)
    → All P xs
    → Encodes (put_each w xs) (repeat (length xs) p) xs
unfolding put_each repeat
put_each-Encodes w p [] P h all = done-Encodes []
put_each-Encodes w p (x ∷ xs) P h all =
    then-Encodes _ (h x all.0) (map-Encodes (λ ys. x ∷ ys) (put_each-Encodes w p xs P h all.1))

-- The same for elements that are all read back.
pub put_all-Encodes {ℓ} :
    {A : Type ℓ} (w : A → Writer) (p : Parser ProtocolError A) (xs : List A)
    → ((x : A) → Encodes (w x) p x)
    → Encodes (put_each w xs) (repeat (length xs) p) xs
unfolding put_each repeat
put_all-Encodes w p [] h = done-Encodes []
put_all-Encodes w p (x ∷ xs) h =
    then-Encodes _ (h x) (map-Encodes (λ ys. x ∷ ys) (put_all-Encodes w p xs h))

-- A decoder that must take all of its input.
pub then_end-Encodes {ℓ} :
    {A : Type ℓ} (w : Writer) (p : Parser ProtocolError A) (v : A) (bytes : List ℕ)
    → Encodes w p v
    → w [] ≡ ok bytes
    → then_end (p bytes) ≡ ok v
unfolding then_end
then_end-Encodes w p v bytes h e =
    let (bs, app, reads) = h.appended [] bytes e in rw (app, sym (append-nil bs), reads [])
