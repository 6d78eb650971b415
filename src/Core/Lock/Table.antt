-- ===== src/Core/Lock/Table.antt =====
-- crates/prism-core/src/lock.rs: the sharded lock table reads as one map from records to holders.
use prism_db.Common.{
  ℕ, ◌≡◌, inl, inr, refl, ap, true, [], ◌∷◌, Option, some, if◌then◌else◌, ◌==◌, arith, Bool-cases,
}
use prism_db.Core.Record.{RecordId}
use prism_db.Core.Lock.{
  LockManager, ShardMap, same_rid, shard_index, find_state, set_state, holder, set_holder,
}

pub same_rid→eq : (a b : RecordId) → same_rid a b ≡ true → a ≡ b
unfolding same_rid
same_rid→eq a b h = ground arith

pub same_rid_refl : (a : RecordId) → same_rid a a ≡ true
unfolding same_rid
same_rid_refl a = ground arith

find-set_state :
    (rid r : RecordId) (s : Option ℕ) (m : ShardMap)
    → find_state r (set_state rid s m) ≡ (if same_rid rid r then some s else find_state r m)
unfolding find_state set_state same_rid
find-set_state rid r s [] = ground arith
find-set_state rid r s ((k, old) ∷ m) = ground (arith, find-set_state rid r s m)

-- The map that record `r` is looked up in, after the holder of `rid` was set.
map_of :
    (lm : LockManager) (rid r : RecordId) (s : Option ℕ)
    → (set_holder lm rid s).shard_map (shard_index (set_holder lm rid s) r) ≡ (
        if shard_index lm r == shard_index lm rid
        then set_state rid s (lm.shard_map (shard_index lm r))
        else lm.shard_map (shard_index lm r))
unfolding set_holder shard_index
map_of lm rid r s = refl

-- Setting the holder of a record leaves the holders of all others, in its shard or not.
pub holder-set_holder :
    (lm : LockManager) (rid r : RecordId) (s : Option ℕ)
    → holder (set_holder lm rid s) r ≡ (if same_rid rid r then s else holder lm r)
unfolding holder
holder-set_holder lm rid r s = rw (map_of lm rid r s) (elim (Bool-cases (same_rid rid r)) [
  | inl e ↦ ground (
    arith,
    find-set_state rid r s (lm.shard_map (shard_index lm r)),
    ap (shard_index lm) (same_rid→eq rid r e),
  )
  | inr e ↦ ground (arith, find-set_state rid r s (lm.shard_map (shard_index lm r)))
])
