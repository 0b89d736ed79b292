-- ===== src/Malloc.antt =====
-- malloclab-handout/mm.c: the allocator, a red-black tree of free segments over a segment list.
pub mod Tree
pub mod Heap
mod Tests
