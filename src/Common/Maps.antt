-- ===== src/Common/Maps.antt =====
-- Maps with numbers for keys, as association lists: a Rust `HashMap<u64, V>` or `BTreeMap<u64, V>`.
use prism_db.Common.Tests.{◌==◌, if◌then◌else◌}
use Prim.Native.Nat.{ℕ}
use mathlib.Core.Path.{◌≡◌}
use mathlib.Core.Bool.{Bool, false, ◌||◌}
use mathlib.Core.Option.{Option, none, some}
use mathlib.Core.List.{List, [], ◌∷◌}
use native.Mathlib.Omega.{arith}

module _ {ℓ} {V : Type ℓ} where
  unfoldable pub lookup : ℕ → List (ℕ × V) → Option V
  lookup k [] = none
  lookup k ((j, v) ∷ m) = if j == k then some v else lookup k m

  unfoldable pub remove : ℕ → List (ℕ × V) → List (ℕ × V)
  remove k [] = []
  remove k ((j, v) ∷ m) = let rest = remove k m in if j == k then rest else (j, v) ∷ rest

  unfoldable pub insert : ℕ → V → List (ℕ × V) → List (ℕ × V)
  insert k v m = (k, v) ∷ remove k m

  pub lookup-remove :
      (k j : ℕ) (m : List (ℕ × V)) → lookup j (remove k m) ≡ (if k == j then none else lookup j m)
  unfolding lookup remove
  lookup-remove k j [] = ground arith
  lookup-remove k j ((i, w) ∷ m) = ground (arith, lookup-remove k j m)

  pub lookup-insert :
      (k j : ℕ) (v : V) (m : List (ℕ × V))
      → lookup j (insert k v m) ≡ (if k == j then some v else lookup j m)
  unfolding lookup insert
  lookup-insert k j v m = ground (arith, lookup-remove k j m)

-- Sets of numbers, as lists: a `HashSet<u64>` or `BTreeSet<u64>`.
unfoldable pub contains : ℕ → List ℕ → Bool
contains k [] = false
contains k (x ∷ xs) = x == k || contains k xs

unfoldable pub delete : ℕ → List ℕ → List ℕ
delete k [] = []
delete k (x ∷ xs) = let rest = delete k xs in if x == k then rest else x ∷ rest

pub contains-delete :
    (k j : ℕ) (xs : List ℕ) → contains j (delete k xs) ≡ (if k == j then false else contains j xs)
unfolding contains delete
contains-delete k j [] = ground arith
contains-delete k j (x ∷ xs) = ground (arith, contains-delete k j xs)
