-- ===== src/Index/Reader.antt =====
-- crates/prism-index/src/btree.rs: the bounds-checked `Reader` of node bodies. Its state is the
-- slice `b[p..]` that is not consumed yet.
use prism_db.Common.{ℕ, List}
use prism_db.Common.Bytes.{from_le}
use prism_db.Common.Parsers.{Parser, ◌>>=◌, return, read_exact}
use prism_db.Index.Node.{IndexError, corrupt, node_truncated}

unfoldable pub take : ℕ → Parser IndexError (List ℕ)
take n = read_exact n (corrupt node_truncated)

unfoldable pub u16 : Parser IndexError ℕ
u16 = do s ← take 2; return (from_le s)

unfoldable pub u32 : Parser IndexError ℕ
u32 = do s ← take 4; return (from_le s)

unfoldable pub u64 : Parser IndexError ℕ
u64 = do s ← take 8; return (from_le s)

unfoldable pub bytes_u32 : Parser IndexError (List ℕ)
bytes_u32 = do len ← u32; take len
