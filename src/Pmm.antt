-- ===== src/Pmm.antt =====
-- kernel/mm/pmm.c, the physical page allocator: a table of memory regions, each available one
-- with a bitmap of its pages. The state is the table, the byte memory that the bitmaps lie in,
-- and `pmm_vma_stop`.
pub mod State
pub mod Pmap
pub mod Sort
pub mod Alloc
pub mod Boot
