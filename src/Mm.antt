-- ===== src/Mm.antt =====
-- kernel/mm: the allocators below the virtual memory system, the entries of page tables, the pages that are
-- given up, and the pipes.
pub mod Kmalloc
pub mod Swap
pub mod Pgtable
pub mod Evict
pub mod Frames
pub mod Pipe
