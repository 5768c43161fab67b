-- ===== src/Semaphore.antt =====
-- include/hermit/semaphore.h: counting semaphores whose waiting tasks stand in a ring.
mod Defs
mod Ring
mod Post
mod Wait
mod Tests
unfoldable pub use Defs.*
