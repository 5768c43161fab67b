-- ===== src/Sched/Inv.antt =====
-- The invariant of the ready queues and timer queues of all cores.
mod Defs
mod Frame
mod Retask
mod Retime
pub use Defs.*
pub use Frame.*
pub use Retask.*
pub use Retime.*
