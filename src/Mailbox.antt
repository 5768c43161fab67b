-- ===== src/Mailbox.antt =====
-- include/hermit/mailbox.h: mailboxes on top of two semaphores.
mod Defs
mod Inv
mod Fifo
mod Tests
