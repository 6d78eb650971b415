-- ===== src/Index.antt =====
-- crates/prism-index: the B+tree.
pub mod Node
pub mod Entries
pub mod Sorted
pub mod Bounds
pub mod Outcome
pub mod Tree
pub mod Forest
pub mod Placing
pub mod Subtree
pub mod Separation
pub mod Writes
pub mod Grown
pub mod Search
pub mod LeafInsert
pub mod Halves
pub mod BranchInsert
pub mod Insert
pub mod Move
pub mod Root
pub mod Scan
pub mod Leaves
pub mod Range
pub mod Refine
pub mod Reader
pub mod Body
pub mod Fields
pub mod BodyLaws
pub mod PageNode
pub mod Pages
mod Examples
