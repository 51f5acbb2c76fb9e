-- ===== src/Mm.antt =====
-- The memory manager, mm/.
pub mod PageAlloc
pub mod Slab
pub mod Paging
pub mod Vmalloc
