-- ===== src/Buddy.antt =====
-- mm/malloc.c and include/hermit/malloc.h: the buddy lists behind `kmalloc` and `kfree`.
mod Defs
mod Size
mod Pool
mod Lists
mod Get
mod Alloc
mod Tests
