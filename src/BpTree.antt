-- ===== src/BpTree.antt =====
-- src/bptree.c: the B+ tree index from ids to row indices.
pub mod Node
pub mod Order
pub mod Leaves
pub mod Split
pub mod Insert
pub mod Search
pub mod Shape
pub mod Balance
pub mod Chain
pub mod Linked
pub mod Range
pub mod Scan
pub mod Ranges
pub mod Build
mod Tests
