-- ===== src/Malloc/Tree/Order.antt =====
-- The search-tree order: what insertion and deletion do to the list of the tree's segments.
pub mod List
pub mod Remove
pub mod Multiset
pub mod Insert
pub mod Delete
