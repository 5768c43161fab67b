-- ===== src/Spin.antt =====
-- include/hermit/spinlock.h: the recursive ticket lock, taken by any number of tasks.
pub mod Lock
pub mod Inv
mod Waiters
mod Moves
pub mod Safety
mod Tests
