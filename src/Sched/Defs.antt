-- ===== src/Sched/Defs.antt =====
-- kernel/tasks.c and include/hermit/tasks_types.h: the task table and the ready queues.
use libhermit.Base.{
  ℕ, zero, suc, ◌-◌, Bool, true, false, Option, none, some, List, ltb, if◌then◌else◌, ptr_eq,
  update,
}
use libhermit.TaskList.{Links, TaskList, task_list_push_back, task_list_remove_task}

pub data Status : Type 0 where
  invalid ready running blocked finished idle : Status

abbrev pub is_running : Status → Bool
is_running Status.running = true
is_running _ = false

abbrev pub is_idle : Status → Bool
is_idle Status.idle = true
is_idle _ = false

abbrev pub is_finished : Status → Bool
is_finished Status.finished = true
is_finished _ = false

abbrev pub is_blocked : Status → Bool
is_blocked Status.blocked = true
is_blocked _ = false

abbrev pub is_invalid : Status → Bool
is_invalid Status.invalid = true
is_invalid _ = false

-- `struct task` without its list links, which stand in `Kernel.links`, and without what the code
-- modelled here does not read. The three bits of `flags` are fields; an address 0 is `none`.
pub record Task : Type 0 where
  pub status : Status
  pub last_core : ℕ
  pub prio : ℕ
  pub timer : Bool
  pub timeout : ℕ
  pub stack : Option ℕ
  pub ist_addr : Option ℕ
  pub heap : Option ℕ
  pub parent : ℕ
  pub last_stack_pointer : Option ℕ

-- A 32-bit word as its bits.
abbrev pub Bitmap : Type 0
Bitmap = ℕ → Bool

-- `readyqueues_t`, without its lock.
pub record ReadyQueue : Type 0 where
  pub idle : Option ℕ
  pub old_task : Option ℕ
  pub fpu_owner : ℕ
  pub nr_tasks : ℕ
  pub prio_bitmap : Bitmap
  pub queue : ℕ → TaskList
  pub timers : TaskList

-- What `finish_task_switch` gives back to the memory management.
pub data Release : Type 0 where
  stack_of ist_of heap_of : ℕ → Release

pub record Kernel : Type 0 where
  pub task_table : ℕ → Task
  pub links : Links
  pub readyqueues : ℕ → ReadyQueue
  pub current_task : ℕ → ℕ
  pub go_down : Bool
  -- what `timer_deadline` has set on each core; `none` after `timer_disable`
  pub alarm : ℕ → Option ℕ
  pub released : List Release

abbrev pub max_prio : ℕ
max_prio = 31

-- `msb`: the highest bit set, and 64 if there is none.
abbrev pub msb_below : ℕ → Bitmap → ℕ
msb_below zero b = 64
msb_below (suc n) b = if b n then n else msb_below n b

unfoldable pub msb : Bitmap → ℕ
msb b = msb_below 32 b

unfoldable pub get_highest_priority : Kernel → ℕ → ℕ
unfolding msb
get_highest_priority k core =
    let prio = msb (k.readyqueues core).prio_bitmap in if ltb max_prio prio then 0 else prio

unfoldable pub is_task_available : Kernel → ℕ → ℕ
is_task_available k core = if ltb 0 (k.readyqueues core).nr_tasks then 1 else 0

abbrev pub set_task : Kernel → ℕ → Task → Kernel
set_task k id t = record k { task_table = update k.task_table id t }

abbrev pub set_queue : Kernel → ℕ → ReadyQueue → Kernel
set_queue k core r = record k { readyqueues = update k.readyqueues core r }

-- The index is `prio - 1`: the callers' tasks have a priority above 0.
unfoldable pub readyqueues_push_back : ℕ → ℕ → Kernel → Kernel
readyqueues_push_back core task k =
    let r = k.readyqueues core in
    let prio = (k.task_table task).prio in
    let (list, l) = task_list_push_back (r.queue (prio - 1)) (some task) k.links in
    record k {
      links = l;
      readyqueues = update k.readyqueues core (record r {
        queue = update r.queue (prio - 1) list;
        prio_bitmap = update r.prio_bitmap prio true;
      });
    }

unfoldable pub readyqueues_remove : ℕ → ℕ → Kernel → Kernel
readyqueues_remove core task k =
    let r = k.readyqueues core in
    let prio = (k.task_table task).prio in
    let (list, l) = task_list_remove_task (r.queue (prio - 1)) task k.links in
    record k {
      links = l;
      readyqueues = update k.readyqueues core (record r {
        queue = update r.queue (prio - 1) list;
        prio_bitmap =
            if ptr_eq list.first none then update r.prio_bitmap prio false else r.prio_bitmap;
      });
    }
