-- ===== src/Vma.antt =====
-- mm/vma.c: the list of used areas of the virtual address space.
mod Defs
mod Update
pub mod Areas
mod Gap
mod Back
pub mod Alloc
mod Remove
mod Room
mod Add
mod Seek
mod Free
mod Lost
mod Init
mod Tests
unfoldable pub use Defs.*
unfoldable pub use Update.*
