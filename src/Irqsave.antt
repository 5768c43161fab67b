-- ===== src/Irqsave.antt =====
-- include/hermit/spinlock.h: the spinlock that also disables the interrupts of its core.
mod Lock
mod Refine
mod Interrupts
mod Race
mod Tests
