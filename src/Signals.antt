-- ===== src/Signals.antt =====
-- arch/x86_64/kernel/signal.c: signals between tasks.
mod Defs
mod Frame
mod Copy
mod Resume
mod Queue
mod Drain
mod Deliver
mod Tests
unfoldable pub use Defs.*
unfoldable pub use Frame.*
