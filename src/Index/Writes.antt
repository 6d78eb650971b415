-- ===== src/Index/Writes.antt =====
-- crates/prism-index/src/btree.rs: the pages after a node is written, and after a node is split over
-- its page and a new one.
use prism_db.Common.{ℕ, ◌≡◌, ◌≢◌, ◌∙◌, ℕ_discrete}
use prism_db.Common.Results.{ok}
use prism_db.Index.Node.{Node, IsNode, IsPageId}
use prism_db.Index.Tree.{NodeStore}
use prism_db.Index.Subtree.{Unread, Keeps}

module _ {S : Type 0} (store : NodeStore S) where
  pub record Written (s s' : S) (page : ℕ) (n : Node) : Type 0 where
    pub here : store.read_node s' page ≡ ok n
    pub others : (p : ℕ) → p ≢ page → Keeps store s s' p
    pub fresh : (p : ℕ) → Unread store s' p → Unread store s p

  pub record SplitOver (s s' : S) (page : ℕ) (n : Node) (right : ℕ) (m : Node) : Type 0 where
    pub here : store.read_node s' page ≡ ok n
    pub there : store.read_node s' right ≡ ok m
    pub new_page : IsPageId right
    pub unread : Unread store s right
    pub others : (p : ℕ) → p ≢ page → Keeps store s s' p
    pub fresh : (p : ℕ) → Unread store s' p → Unread store s p

  fresh_of_others :
      (s s' : S) (page : ℕ) (n : Node)
      → store.read_node s' page ≡ ok n
      → ((p : ℕ) → p ≢ page → Keeps store s s' p)
      → (p : ℕ) → Unread store s' p
      → Unread store s p
  fresh_of_others s s' page n here others p u m r = elim (ℕ_discrete p page) [
    | yes e ↦ u n (rw e here)
    | no ne ↦ u m (others p ne m r)
  ]

  pub write-Written :
      (s : S) (page : ℕ) (n : Node)
      → IsNode n
      → (store.write_page page n s).1 ≡ ok tt
      → Written s (store.write_page page n s).0 page n
  write-Written s page n v w =
      let here = store.write-read page n s v w in
      let others : (p : ℕ) → p ≢ page → Keeps store s (store.write_page page n s).0 p =
        λ p ne m r. store.write_other page p n s ne ∙ r in
      record {
        here = here;
        others = others;
        fresh = fresh_of_others s (store.write_page page n s).0 page n here others;
      }

  -- The page had a node before; the new page cannot be it.
  pub alloc-write-SplitOver :
      (s : S) (page right : ℕ) (old n m : Node)
      → store.read_node s page ≡ ok old
      → IsNode m
      → (store.alloc_page m s).1 ≡ ok right
      → IsNode n
      → (store.write_page page n (store.alloc_page m s).0).1 ≡ ok tt
      → SplitOver s (store.write_page page n (store.alloc_page m s).0).0 page n right m
  alloc-write-SplitOver s page right old n m r vm a vn w =
      let mid = (store.alloc_page m s).0 in
      let ne : right ≢ page = λ e. store.alloc_fresh m old s right a (rw e r) in
      let here = store.write-read page n mid vn w in
      let others : (p : ℕ) → p ≢ page → Keeps store s (store.write_page page n mid).0 p =
        λ p ne l q. store.write_other page p n mid ne ∙ store.alloc_keeps m l s p q in
      record {
        here = here;
        there = store.write_other page right n mid ne ∙ store.alloc-read m s right vm a;
        new_page = store.alloc_id m s right a;
        unread = λ l. store.alloc_fresh m l s right a;
        others = others;
        fresh = fresh_of_others s (store.write_page page n mid).0 page n here others;
      }
