-- ===== src/Pages.antt =====
-- arch/x86_64/mm/memory.c: the free list of physical pages.
mod Defs
mod Fit
mod Exact
mod Put
mod Repeat
mod Boot
mod Regions
mod Allocate
mod Extend
mod Free
mod Tests
unfoldable pub use Defs.*
