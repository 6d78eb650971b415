-- ===== src/Index/Forest.antt =====
-- crates/prism-index/src/btree.rs: what stands below an internal node, as a value: subtrees with the
-- separators between them. `route` and `insert_child` act on it as on the node's two vectors.
use prism_db.Common.{
  ℕ, ◌+◌, ◌≡◌, ◌⊎◌, refl, ap, not, List, [], ◌∷◌, ◌++◌, Option, some, if◌then◌else◌, length,
  get_elem?, arith, Bool-cases, inl, inr, append_assoc,
}
use prism_db.Common.Order.{bytes_lt}
use prism_db.Index.Node.{Key, Entry, partition_point}
use prism_db.Index.Entries.{Over, Below}

pub data Forest (T : Type 0) : Type 0 where
  last : T → Forest T
  more : T → Key → Forest T → Forest T

module _ {T : Type 0} where
  abbrev pub separators : Forest T → List Key
  separators (last t) = []
  separators (more t k f) = k ∷ separators f

  abbrev pub child_pages : (T → ℕ) → Forest T → List ℕ
  child_pages page (last t) = page t ∷ []
  child_pages page (more t k f) = page t ∷ child_pages page f

  abbrev pub gather : {A : Type 0} → (T → List A) → Forest T → List A
  gather entries (last t) = entries t
  gather entries (more t k f) = entries t ++ gather entries f

  abbrev pub Every : (T → Type 0) → Forest T → Type 0
  Every P (last t) = P t
  Every P (more t k f) = P t × Every P f

  abbrev pub Some : (T → Type 0) → Forest T → Type 0
  Some P (last t) = P t
  Some P (more t k f) = P t ⊎ Some P f

  -- Separators strictly inside the bounds, and each subtree between its neighbours.
  abbrev pub Within :
      (Option Key → Option Key → T → Type 0) → Option Key → Option Key → Forest T → Type 0
  Within W lo hi (last t) = W lo hi t
  Within W lo hi (more t k f) = Over lo k × Below k hi × W lo (some k) t × Within W (some k) hi f

  -- Two forests with a separator between them.
  abbrev pub join : Forest T → Key → Forest T → Forest T
  join (last t) k f = more t k f
  join (more t j g) k f = more t j (join g k f)

  -- The subtree on a key's way down, the bounds that it stands between, and the forest with another
  -- one in its place.
  unfoldable pub at : Key → Forest T → T
  at k (last t) = t
  at k (more t j f) = if bytes_lt k j then t else at k f

  unfoldable pub low : Key → Option Key → Forest T → Option Key
  low k lo (last t) = lo
  low k lo (more t j f) = if bytes_lt k j then lo else low k (some j) f

  unfoldable pub high : Key → Option Key → Forest T → Option Key
  high k hi (last t) = hi
  high k hi (more t j f) = if bytes_lt k j then some j else high k hi f

  unfoldable pub put : Key → Forest T → Forest T → Forest T
  put k g (last t) = g
  put k g (more t j f) = if bytes_lt k j then join g j f else more t j (put k g f)

  pub route-at :
      (page : T → ℕ) (k : Key) (f : Forest T)
      → get_elem? (child_pages page f) (partition_point (λ j. not (bytes_lt k j)) (separators f))
        ≡ some (page (at k f))
  unfolding at
  route-at page k (last t) = refl
  route-at page k (more t j f) = elim (Bool-cases (bytes_lt k j)) [
    | inl p ↦ rw p
    | inr p ↦ rw p (route-at page k f)
  ]

  module _ (P : T → Type 0) where
    pub Every-at : (k : Key) (f : Forest T) → Every P f → P (at k f)
    unfolding at
    Every-at k (last t) h = h
    Every-at k (more t j f) (h, hs) = elim (Bool-cases (bytes_lt k j)) [
      | inl p ↦ rw p h
      | inr p ↦ rw p (Every-at k f hs)
    ]

    pub Every-join :
        (g : Forest T) (k : Key) (f : Forest T) → Every P g → Every P f → Every P (join g k f)
    Every-join (last t) k f h hs = (h, hs)
    Every-join (more t j g) k f (h, hg) hs = (h, Every-join g k f hg hs)

    pub join-Every :
        (g : Forest T) (k : Key) (f : Forest T) → Every P (join g k f) → Every P g × Every P f
    join-Every (last t) k f (h, hs) = (h, hs)
    join-Every (more t j g) k f (h, hs) = let (l, r) = join-Every g k f hs in ((h, l), r)

    pub Some-join :
        (g : Forest T) (k : Key) (f : Forest T) → Some P (join g k f) → Some P g ⊎ Some P f
    Some-join (last t) k f h = h
    Some-join (more t j g) k f (inl h) = inl (inl h)
    Some-join (more t j g) k f (inr h) = elim (Some-join g k f h) [
      | inl l ↦ inl (inr l)
      | inr r ↦ inr r
    ]

    pub join-Some :
        (g : Forest T) (k : Key) (f : Forest T) → (Some P g ⊎ Some P f) → Some P (join g k f)
    join-Some (last t) k f h = h
    join-Some (more t j g) k f (inl (inl h)) = inl h
    join-Some (more t j g) k f (inl (inr h)) = inr (join-Some g k f (inl h))
    join-Some (more t j g) k f (inr h) = inr (join-Some g k f (inr h))

    pub at-Some : (k : Key) (f : Forest T) → P (at k f) → Some P f
    unfolding at
    at-Some k (last t) h = h
    at-Some k (more t j f) h = elim (Bool-cases (bytes_lt k j)) [
      | inl p ↦ inl (rw p at h)
      | inr p ↦ inr (at-Some k f (rw p at h))
    ]

    pub Some-put : (k : Key) (g f : Forest T) → Some P (put k g f) → Some P g ⊎ Some P f
    unfolding put
    Some-put k g (last t) h = inl h
    Some-put k g (more t j f) h = elim (Bool-cases (bytes_lt k j)) [
      | inl p ↦ elim (Some-join g j f (rw p at h)) [ inl l ↦ inl l | inr r ↦ inr (inr r) ]
      | inr p ↦ some_put_more k g t j f (rw p at h) (λ r. Some-put k g f r)
    ]
      where
        some_put_more :
            (k : Key) (g : Forest T) (t : T) (j : Key) (f : Forest T)
            → Some P (more t j (put k g f))
            → (Some P (put k g f) → Some P g ⊎ Some P f)
            → Some P g ⊎ Some P (more t j f)
        some_put_more k g t j f (inl h) ih = inr (inl h)
        some_put_more k g t j f (inr h) ih = elim (ih h) [ inl l ↦ inl l | inr r ↦ inr (inr r) ]

  pub gather-join :
      (e : T → List Entry) (g : Forest T) (k : Key) (f : Forest T)
      → gather e (join g k f) ≡ gather e g ++ gather e f
  gather-join e (last t) k f = refl
  gather-join e (more t j g) k f =
      rw (gather-join e g k f, append_assoc (e t) (gather e g) (gather e f))

  pub separators-join :
      (g : Forest T) (k : Key) (f : Forest T)
      → separators (join g k f) ≡ separators g ++ k ∷ separators f
  separators-join (last t) k f = refl
  separators-join (more t j g) k f = ap (◌∷◌ j) (separators-join g k f)

  pub child_pages-join :
      (page : T → ℕ) (g : Forest T) (k : Key) (f : Forest T)
      → child_pages page (join g k f) ≡ child_pages page g ++ child_pages page f
  child_pages-join page (last t) k f = refl
  child_pages-join page (more t j g) k f = ap (◌∷◌ (page t)) (child_pages-join page g k f)

  pub length-child_pages :
      (page : T → ℕ) (f : Forest T) → length (child_pages page f) ≡ length (separators f) + 1
  length-child_pages page (last t) = refl
  length-child_pages page (more t k f) = omega (arith, length-child_pages page f)
