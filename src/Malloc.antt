-- ===== src/Malloc.antt =====
-- mm/malloc.c: the allocation of mapped memory, on the areas of Vma and the free list of Pages.
mod Defs
mod Reserve
mod Whole
mod Tests
unfoldable pub use Defs.*
