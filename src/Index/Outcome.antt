-- ===== src/Index/Outcome.antt =====
-- crates/prism-index/src/btree.rs: what a method of the tree gives, and what it uses of its pages.
use prism_db.Common.{Option, none, some, ◌≡◌, refl}
use prism_db.Common.Results.{Result, ok, err}
use prism_db.Index.Node.{IndexError}

-- A method returns a value or an error, each with the pages as it leaves them, or panics. Loops have
-- fuel, and a theorem says when it is enough.
pub data Outcome (S A : Type 0) : Type 0 where
  out_of_fuel : Outcome S A
  panicked : Outcome S A
  failed : IndexError → S → Outcome S A
  done : A → S → Outcome S A

abbrev pub M : Type 0 → Type 0 → Type 0
M S A = S → Outcome S A

infixl 5 ◌>>=◌ ◌>>◌
abbrev pub bind : {S A B : Type 0} → Outcome S A → (A → M S B) → Outcome S B
bind out_of_fuel f = out_of_fuel
bind panicked f = panicked
bind (failed e s) f = failed e s
bind (done a s) f = f a s

abbrev pub ◌>>=◌ : {S A B : Type 0} → M S A → (A → M S B) → M S B
◌>>=◌ m f s = bind (m s) f

abbrev pub ◌>>◌ : {S A B : Type 0} → M S A → M S B → M S B
m >> k = m >>= λ _. k

abbrev pub return : {S A : Type 0} → A → M S A
return a s = done a s

-- An index out of range, or `expect` of nothing.
abbrev pub or_panic : {S A : Type 0} → Option A → M S A
or_panic none s = panicked
or_panic (some a) s = done a s

-- A result of a page access, with the pages after it.
abbrev pub lift : {S A : Type 0} → Result IndexError A → M S A
lift (err e) s = failed e s
lift (ok a) s = done a s

abbrev pub settle : {S A : Type 0} → S × Result IndexError A → Outcome S A
settle (s, r) = lift r s

-- No fuel is missing, nothing panics, and a value that is returned satisfies `P`.
abbrev pub Ends : {S A : Type 0} → Outcome S A → (A → S → Type 0) → Type 0
Ends out_of_fuel P = ⊥
Ends panicked P = ⊥
Ends (failed e s) P = Unit {0}
Ends (done a s) P = P a s

pub Ends-bind :
    {S A B : Type 0} (m : Outcome S A) (f : A → M S B) (P : A → S → Type 0) (Q : B → S → Type 0)
    → Ends m P
    → ((a : A) (s : S) → P a s → Ends (f a s) Q)
    → Ends (bind m f) Q
Ends-bind out_of_fuel f P Q e k = e
Ends-bind panicked f P Q e k = e
Ends-bind (failed x s) f P Q e k = tt
Ends-bind (done a s) f P Q e k = k a s e

pub Ends_imp :
    {S A : Type 0} (m : Outcome S A) (P Q : A → S → Type 0)
    → ((a : A) (s : S) → P a s → Q a s)
    → Ends m P
    → Ends m Q
Ends_imp out_of_fuel P Q k e = e
Ends_imp panicked P Q k e = e
Ends_imp (failed x s) P Q k e = tt
Ends_imp (done a s) P Q k e = k a s e

pub Ends-settle :
    {S A B : Type 0} (x : S × Result IndexError A) (f : A → M S B) (Q : B → S → Type 0)
    → ((a : A) → x.1 ≡ ok a → Ends (f a x.0) Q)
    → Ends (bind (settle x) f) Q
Ends-settle (s, err e) f Q k = tt
Ends-settle (s, ok a) f Q k = k a refl

pub Ends-settle_last :
    {S A : Type 0} (x : S × Result IndexError A) (Q : A → S → Type 0)
    → ((a : A) → x.1 ≡ ok a → Q a x.0)
    → Ends (settle x) Q
Ends-settle_last (s, err e) Q k = tt
Ends-settle_last (s, ok a) Q k = k a refl
