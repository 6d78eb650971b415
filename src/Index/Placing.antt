-- ===== src/Index/Placing.antt =====
-- crates/prism-index/src/btree.rs: the order of an internal node's subtrees, on a key's way down and
-- when a subtree is replaced there.
use prism_db.Common.{
  ℕ, suc, ◌≡◌, refl, ap, true, false, List, ◌∷◌, ◌++◌, Option, none, some, All, Bool-cases, inl,
  inr, All-imp, All-append,
}
use prism_db.Common.Order.{bytes_lt, lt_asymm, lt_trans, lt_le_trans}
use prism_db.Index.Node.{Key, Entry, partition_point, insert_at}
use prism_db.Index.Entries.{
  Over, Below, AtLeast, InRange, Before, After, find, find-append-Before, find-append-After,
}
use prism_db.Index.Forest.{
  Forest, last, more, separators, child_pages, gather, Within, join, at, low, high, put,
  gather-join,
}

Over-trans : (lo : Option Key) (j k : Key) → Over lo j → bytes_lt j k ≡ true → Over lo k
Over-trans none j k a h = tt
Over-trans (some b) j k a h = lt_trans b j k a h

Below-trans : (j k : Key) (hi : Option Key) → bytes_lt j k ≡ true → Below k hi → Below j hi
Below-trans j k none h a = tt
Below-trans j k (some b) h a = lt_trans j k b h a

AtLeast-trans : (lo : Option Key) (j k : Key) → Over lo j → AtLeast (some j) k → AtLeast lo k
AtLeast-trans none j k a h = tt
AtLeast-trans (some b) j k a h = lt_asymm b k (lt_le_trans b j k a h)

abbrev pub Ordering : Type 0 → Type 1
Ordering T = Option Key → Option Key → T → Type 0

module _ {T : Type 0} (k : Key) where
  pub low-AtLeast : (lo : Option Key) (f : Forest T) → AtLeast lo k → AtLeast (low k lo f) k
  unfolding low
  low-AtLeast lo (last t) a = a
  low-AtLeast lo (more t j f) a = elim (Bool-cases (bytes_lt k j)) [
    | inl p ↦ rw p a
    | inr p ↦ rw p (low-AtLeast (some j) f p)
  ]

  pub high-Below : (hi : Option Key) (f : Forest T) → Below k hi → Below k (high k hi f)
  unfolding high
  high-Below hi (last t) b = b
  high-Below hi (more t j f) b = elim (Bool-cases (bytes_lt k j)) [
    | inl p ↦ rw p p
    | inr p ↦ rw p (high-Below hi f b)
  ]

module _ {T : Type 0} (W : Ordering T) where
  pub Within-at :
      (k : Key) (lo hi : Option Key) (f : Forest T)
      → Within W lo hi f
      → W (low k lo f) (high k hi f) (at k f)
  unfolding at low high
  Within-at k lo hi (last t) w = w
  Within-at k lo hi (more t j f) (o, b, w, ws) = elim (Bool-cases (bytes_lt k j)) [
    | inl p ↦ rw p w
    | inr p ↦ rw p (Within-at k (some j) hi f ws)
  ]

  pub Within-join :
      (lo hi : Option Key) (g : Forest T) (k : Key) (f : Forest T)
      → Over lo k
      → Below k hi
      → Within W lo (some k) g
      → Within W (some k) hi f
      → Within W lo hi (join g k f)
  Within-join lo hi (last t) k f o b w ws = (o, b, w, ws)
  Within-join lo hi (more t j g) k f o b (oj, bj, wt, wg) ws =
      (oj, Below-trans j k hi bj b, wt, Within-join (some j) hi g k f bj b wg ws)

  pub join-Within :
      (lo hi : Option Key) (g : Forest T) (k : Key) (f : Forest T)
      → Within W lo hi (join g k f)
      → Over lo k × Below k hi × Within W lo (some k) g × Within W (some k) hi f
  join-Within lo hi (last t) k f w = w
  join-Within lo hi (more t j g) k f (oj, bj, wt, w) =
      let (o, b, wg, wf) = join-Within (some j) hi g k f w in
      (Over-trans lo j k oj o, b, (oj, o, wt, wg), wf)

  pub Within-put :
      (k : Key) (lo hi : Option Key) (g f : Forest T)
      → Within W lo hi f
      → Within W (low k lo f) (high k hi f) g
      → Within W lo hi (put k g f)
  unfolding put low high
  Within-put k lo hi g (last t) w wg = wg
  Within-put k lo hi g (more t j f) (o, b, w, ws) wg = elim (Bool-cases (bytes_lt k j)) [
    | inl p ↦ rw p (Within-join lo hi g j f o b (rw p at wg) ws)
    | inr p ↦ rw p (o, b, w, Within-put k (some j) hi g f ws (rw p at wg))
  ]

  pub low-Over :
      (k : Key) (lo hi : Option Key) (f : Forest T) (j : Key)
      → Within W lo hi f
      → Over (low k lo f) j
      → Over lo j
  unfolding low
  low-Over k lo hi (last t) j w o = o
  low-Over k lo hi (more t i f) j (oi, b, w, ws) o = elim (Bool-cases (bytes_lt k i)) [
    | inl p ↦ rw p at o
    | inr p ↦ Over-trans lo i j oi (low-Over k (some i) hi f j ws (rw p at o))
  ]

  -- A split child's separator and new page land where `insert_child` puts them.
  pub separators-put :
      (k : Key) (lo hi : Option Key) (f : Forest T) (t' u : T) (j : Key)
      → Within W lo hi f
      → Over (low k lo f) j
      → Below j (high k hi f)
      → separators (put k (more t' j (last u)) f)
        ≡ insert_at (partition_point (λ (i : Key). bytes_lt i j) (separators f)) j (separators f)
  unfolding put low high
  separators-put k lo hi (last t) t' u j w o b = refl
  separators-put k lo hi (more t i f) t' u j (oi, bi, w, ws) o b =
      elim (Bool-cases (bytes_lt k i)) [
        | inl p ↦ rw (p, lt_asymm j i (rw p at b))
        | inr p ↦
            rw (p, low-Over k (some i) hi f j ws (rw p at o))
              (ap (◌∷◌ i) (separators-put k (some i) hi f t' u j ws (rw p at o) (rw p at b)))
      ]

  pub child_pages-put :
      (page : T → ℕ) (k : Key) (lo hi : Option Key) (f : Forest T) (t' u : T) (j : Key)
      → page t' ≡ page (at k f)
      → Within W lo hi f
      → Over (low k lo f) j
      → Below j (high k hi f)
      → child_pages page (put k (more t' j (last u)) f)
        ≡ insert_at
            (suc (partition_point (λ (i : Key). bytes_lt i j) (separators f)))
            (page u)
            (child_pages page f)
  unfolding put low high at
  child_pages-put page k lo hi (last t) t' u j e w o b = rw e
  child_pages-put page k lo hi (more t i f) t' u j e (oi, bi, w, ws) o b =
      elim (Bool-cases (bytes_lt k i)) [
        | inl p ↦ rw (p, lt_asymm j i (rw p at b), rw p at e)
        | inr p ↦
            rw (p, low-Over k (some i) hi f j ws (rw p at o))
              (ap (◌∷◌ (page t)) (
                child_pages-put page k (some i) hi f t' u j (rw p at e) ws (rw p at o) (rw p at b)))
      ]

  -- A child that keeps its page leaves the node as it is.
  pub child_pages-put_last :
      (page : T → ℕ) (k : Key) (f : Forest T) (t' : T)
      → page t' ≡ page (at k f)
      → (child_pages page (put k (last t') f) ≡ child_pages page f)
        × (separators (put k (last t') f) ≡ separators f)
  unfolding put at
  child_pages-put_last page k (last t) t' e = (rw e, refl)
  child_pages-put_last page k (more t i f) t' e = elim (Bool-cases (bytes_lt k i)) [
    | inl p ↦ rw p (rw (rw p at e), refl)
    | inr p ↦
        let (c, s) = child_pages-put_last page k f t' (rw p at e) in
        rw p (ap (◌∷◌ (page t)) c, ap (◌∷◌ i) s)
  ]

  module _ (entries : T → List Entry)
      (range : (lo hi : Option Key) (t : T) → W lo hi t → All (InRange lo hi) (entries t)) where
    pub gather-InRange :
        (lo hi : Option Key) (f : Forest T)
        → Within W lo hi f
        → All (InRange lo hi) (gather entries f)
    gather-InRange lo hi (last t) w = range lo hi t w
    gather-InRange lo hi (more t j f) (o, b, w, ws) =
        All-append (InRange lo hi) (entries t) (gather entries f)
          (All-imp (entries t) (λ e h. (h.0, Below-trans e.0 j hi h.1 b)) (range lo (some j) t w))
          (All-imp (gather entries f) (λ e h. (AtLeast-trans lo j e.0 o h.0, h.1))
            (gather-InRange (some j) hi f ws))

    module _ (k : Key) where
      pub gather-After :
          (j : Key) (hi : Option Key) (f : Forest T)
          → bytes_lt k j ≡ true
          → Within W (some j) hi f
          → All (After k) (gather entries f)
      gather-After j hi f p ws =
          All-imp (gather entries f) (λ e h. lt_le_trans k j e.0 p h.0)
            (gather-InRange (some j) hi f ws)

      pub range-Before :
          (lo : Option Key) (j : Key) (t : T)
          → bytes_lt k j ≡ false
          → W lo (some j) t
          → All (Before k) (entries t)
      range-Before lo j t p w =
          All-imp (entries t) (λ e h. lt_le_trans e.0 j k h.1 p) (range lo (some j) t w)

      pub find-gather :
          (lo hi : Option Key) (f : Forest T)
          → Within W lo hi f
          → find k (gather entries f) ≡ find k (entries (at k f))
      unfolding at
      find-gather lo hi (last t) w = refl
      find-gather lo hi (more t j f) (o, b, w, ws) = elim (Bool-cases (bytes_lt k j)) [
        | inl p ↦
            rw p (find-append-After k (entries t) (gather entries f) (gather-After j hi f p ws))
        | inr p ↦
            rw (p, find-append-Before k (entries t) (gather entries f) (range-Before lo j t p w))
              (find-gather (some j) hi f ws)
      ]

      -- An operation that acts on the key's side alone acts on the one subtree.
      pub gather-put :
          (op : List Entry → List Entry)
          → ((us vs : List Entry) → All (Before k) us → op (us ++ vs) ≡ us ++ op vs)
          → ((us vs : List Entry) → All (After k) vs → op (us ++ vs) ≡ op us ++ vs)
          → (lo hi : Option Key) (g f : Forest T) → Within W lo hi f
          → gather entries g ≡ op (entries (at k f))
          → gather entries (put k g f) ≡ op (gather entries f)
      unfolding put at
      gather-put op before after lo hi g (last t) w e = e
      gather-put op before after lo hi g (more t j f) (o, b, w, ws) e =
          elim (Bool-cases (bytes_lt k j)) [
            | inl p ↦ rw (
              p,
              gather-join entries g j f,
              rw p at e,
              after (entries t) (gather entries f) (gather-After j hi f p ws),
            )
            | inr p ↦
                rw (p, before (entries t) (gather entries f) (range-Before lo j t p w))
                  (ap (◌++◌ (entries t))
                    (gather-put op before after (some j) hi g f ws (rw p at e)))
          ]
