-- ===== src/Fpu.antt =====
-- kernel/tasks.c: the registers of the FPU, saved and restored when a task first uses them.
mod Defs
mod Moves
mod Isolation
mod Tests
unfoldable pub use Defs.*
