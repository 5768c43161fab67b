-- ===== src/Sched.antt =====
-- kernel/tasks.c: the scheduler.
mod Defs
mod Timer
mod Ops
mod Switch
pub mod Inv
pub mod Insert
mod Queue
mod Msb
mod Pick
mod Schedule
mod Total
pub mod Wake
mod Due
pub mod Expire
pub mod Block
mod Finish
pub mod Alarm
pub mod Machine
mod Create
mod Created
mod Boot
mod Tests
unfoldable pub use Defs.*
unfoldable pub use Timer.*
unfoldable pub use Ops.*
unfoldable pub use Switch.*
unfoldable pub use Create.*
unfoldable pub use Boot.*
