-- ===== src/Dequeue.antt =====
-- include/hermit/dequeue.h: a ring buffer with one slot kept empty.
mod Defs
mod Refine
mod Tests
unfoldable pub use Defs.*
pub use Refine.*
