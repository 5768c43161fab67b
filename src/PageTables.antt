-- ===== src/PageTables.antt =====
-- arch/x86_64/mm/page.c: the page tables.
mod Bits
mod Defs
mod Fill
mod Levels
mod Entry
mod Mapped
mod Tests
