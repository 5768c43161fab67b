-- ===== src/Lib.antt =====
-- Verification of HermitCore's kernel (RWTH-OS/libhermit).
--
-- The program is a unikernel: tasks share one address space, every core schedules its own ready
-- queues (kernel/tasks.c), tasks wait on semaphores (include/hermit/semaphore.h), and the memory
-- management keeps a list of the used parts of the address space (mm/vma.c).
--
-- Which file models which code:
--  - TaskList: include/hermit/tasks_types.h, `task_list_t` and its three operations. Defs holds
--    the operations, Shape what a well-formed list is, Push, Pop and Remove their effect on it.
--  - Sched: kernel/tasks.c, the ready queues, the timer queues and the scheduler. Defs holds the
--    data, Timer the timer queue, Ops waking up, blocking and timers, Switch `scheduler`,
--    `finish_task_switch`, `do_exit`, `get_task` and `set_idle_task`, and Create `clone_task`,
--    `create_task` and `get_next_core_id`; Created is about them. Boot holds `multitasking_init`,
--    `set_boot_stack` and `check_scheduling`. Inv is the invariant of all queues, with lemmas on
--    how it survives a change of one queue or of one task; the other files carry it through the
--    operations; Due and Expire are about `check_timers`. Machine is a machine for the tests.
--  - Semaphore: include/hermit/semaphore.h, on the scheduler of Sched. Ring relates the ring of
--    waiting tasks to a list, Post and Wait are about `sem_post` and the passes of `sem_wait`.
--  - Fpu: `fpu_handler` (kernel/tasks.c) and `arch_fpu_handler` (arch/x86_64/kernel/isrs.c), with
--    the switch to another task (arch/x86_64/kernel/entry.asm) and the clean-up of a task as steps
--    on one core. Moves is about a step, Isolation about any number of them.
--  - Signals: arch/x86_64/kernel/signal.c, on Sched and Dequeue. Defs holds the operations, Frame
--    the frames that the interrupt handler builds and `sighandler_epilog`
--    (arch/x86_64/kernel/entry.asm); Copy and Resume are about the frames, Queue, Drain and Deliver
--    about the way of a signal.
--  - Spin: include/hermit/spinlock.h, `spinlock_lock` and `spinlock_unlock`. Lock holds an access
--    of a task to the shared lock as a step, Inv the queue of the tasks with a ticket, Waiters and
--    Moves what a step does to it, and Safety what holds in all interleavings.
--  - Irqsave: include/hermit/spinlock.h, the spinlock that disables the interrupts, as the lock of
--    Spin with an interrupt flag for each core, for one lock; other code, such as that of a second
--    lock, is a step that writes the flag. Lock holds the accesses, Refine relates it to Spin,
--    Interrupts and Race are about the flags.
--  - Dequeue: include/hermit/dequeue.h, with its refinement to a bounded queue.
--  - Mailbox: include/hermit/mailbox.h, on the values of two semaphores. Inv is the invariant that
--    its steps keep, Fifo what the readers get.
--  - Vma: mm/vma.c. Defs holds the data and `vma_alloc`, Update `vma_add` and `vma_free`, Init
--    `vma_init` and `vma_arch_init` (arch/x86_64/mm/vma.c). Areas reads the list as a set of
--    addresses, Gap is the search, Back is about the `prev` links of a new node, Remove takes a
--    node out; Room and Seek are the searches of `vma_add` and `vma_free`; Alloc, Add, Free and
--    Lost are about the operations.
--  - PageTables: arch/x86_64/mm/page.c, `__page_map`, `page_unmap`, `virt_to_phys` and
--    `check_pagetables`. Bits is about the bitwise or, Fill about the tables that are created on
--    one level, Levels about all upper levels, Entry about the level 0, and Mapped about
--    `__page_map`.
--  - Pages: arch/x86_64/mm/memory.c, `get_pages` and `put_pages` on the free list of physical
--    pages. Fit and Exact are about `get_pages`, Put and Repeat about `put_pages`. Boot holds the
--    two loops of `memory_init` over the memory map of the boot loader, with what is free in a
--    region in Regions; Allocate is about the pages that `kmalloc` takes from the list meanwhile,
--    Extend about a turn of the second loop, and Free about all of it.
--  - Malloc: mm/malloc.c, `palloc`, `create_stack` and `destroy_stack`, on Vma and Pages;
--    Reserve is about `palloc`. Whole holds `page_alloc` and `page_free`
--    (arch/x86_64/mm/memory.c).
--  - Buddy: mm/malloc.c, `kmalloc` and `kfree` on the buddy lists. Size is about `buddy_exp` and
--    the prefix of a block, Pool counts in how many blocks an address lies, Lists is about the list
--    of one size, Get about `buddy_get` and Alloc about `kmalloc` and `kfree`.
--  - Strings: libkern/string.c; Results is about `_memset`, `_strlen` and `_memcmp`.
--  - Base: the shared names, Boolean tests, lists, maps and ring buffers over the native
--    numbers.
--
-- How state corresponds to the code: a task is its index in `task_table`, a pointer to a task or a
-- node is an `Option` of an index, with `none` for NULL, and the links of all tasks stand in one
-- record, so that lists share them as they do in the code. In Buddy and PageTables an address is a
-- number, 0 for NULL. `prio_bitmap` is a function of bit positions. A spinlock makes the code that
-- it guards one step in the other modules; Spin is about the lock itself. The core that runs the
-- code (CORE_ID) and the clock tick are arguments; what `timer_deadline` sets is the field `alarm`,
-- and what `destroy_stack` and `kfree` get from `finish_task_switch` is the list `released`. The
-- configuration DYNAMIC_TICKS is taken to be on. 32-bit and 64-bit sums keep their wrap-around.
--
-- Bounds and fuel: walks over the timer queue, the list of areas and the free list of pages have
-- fuel; the theorems ask for more fuel than there are elements, which the walks never use up. The
-- loop of `check_timers` has fuel too, like the one over a queue of signals, which needs more than
-- the signals that it holds, and the loops over strings, which need more than the length of the
-- string. In Buddy, the loop of `buddy_exp` and the recursion of `buddy_get` have fuel; as the
-- exponents end at 30, 31 passes are enough. All other functions need none.
--
-- Not modelled: the context switch itself, wake-up interrupts, the first frame of a new task, the
-- thread-local storage, log output, the conversion of milliseconds and the busy waiting in
-- `sem_wait`, the TLB, the page fault handler, the rest of `memory_init`, `get_zeroed_page`, the
-- second page allocator for high bandwidth memory, which has the code of the first, interrupt
-- controllers, drivers and system calls; strtol, strtoul, strstr and the formatted output are
-- copies of BSD code. The results of `kmalloc`, of `virt_to_phys` in Malloc, of
-- `get_pages` in PageTables, of `palloc` in Buddy, of `fpu_init` in Fpu, and of
-- `create_default_frame` and `create_stack` in Sched are arguments of the operations that call
-- them; `page_map` in Malloc is a function of the addresses, the number of pages, the flags and the
-- free list. That `palloc` may call `kmalloc` for a node of Vma while `buddy_get` runs is not modelled.
pub mod Base
pub mod TaskList
pub mod Sched
pub mod Buddy
pub mod Dequeue
pub mod Semaphore
pub mod Vma
pub mod PageTables
pub mod Pages
pub mod Mailbox
pub mod Malloc
pub mod Signals
pub mod Fpu
pub mod Strings
pub mod Spin
pub mod Irqsave
