-- ===== src/Sched/Switch.antt =====
-- kernel/tasks.c: `scheduler`, `finish_task_switch`, `do_exit` up to its `reschedule`, and the task
-- table's small functions. `core` is the core that runs the code.
use libhermit.Base.{
  ℕ, zero, suc, ◌+◌, ◌-◌, false, Option, none, some, List, ◌∷◌, ltb, leb, ◌==◌, if◌then◌else◌,
  ptr_eq, update, ◌&&◌, ◌||◌, ◌⊎◌, inl, inr,
}
use libhermit.TaskList.{Links, TaskList, task_list_pop_front}
use libhermit.Sched.Defs.{
  Status, is_running, is_idle, is_finished, is_invalid, Task, Release, stack_of, ist_of, heap_of,
  Kernel, max_prio, msb, set_task, set_queue, readyqueues_push_back,
}
use libhermit.Sched.Ops.{count_down}

-- `halted` is one of the endless loops after a kernel panic, `fault` a NULL dereference.
pub data Outcome : Type 0 where
  returned : Option ℕ → Kernel → Outcome
  halted : Outcome
  fault : Outcome

-- What `scheduler` returns: the task whose stack pointer is to be saved, or NULL for no switch.
abbrev pub get_task_out : ℕ → ℕ → Kernel → Outcome
get_task_out orig curr k = returned (if orig == curr then none else some orig) k

abbrev pub make_current : ℕ → ℕ → Kernel → Kernel
make_current core id k = record k { current_task = update k.current_task core id }

abbrev pub set_old : ℕ → Option ℕ → Kernel → Kernel
set_old core old k = let r = k.readyqueues core in set_queue k core (record r { old_task = old })

-- A NULL idle task would be dereferenced by the switch to it.
abbrev pub switch_to_idle : ℕ → ℕ → Kernel → Outcome
switch_to_idle core orig k = elim (k.readyqueues core).idle [
  | none ↦ fault
  | some id ↦ get_task_out orig id (make_current core id k)
]

-- `id` is taken from the queue of priority `prio`, which is now `list`.
abbrev pub start_task : ℕ → ℕ → ℕ → ℕ → TaskList → Links → Kernel → Outcome
start_task core orig prio id list l k =
    let t = k.task_table id in
    let r = k.readyqueues core in
    if is_invalid t.status
    then halted
    else get_task_out orig id (
        make_current core id (record k {
          links = l;
          task_table = update k.task_table id (record t { status = Status.running });
          readyqueues = update k.readyqueues core (record r {
            queue = update r.queue (prio - 1) list;
            prio_bitmap =
                if ptr_eq list.first none then update r.prio_bitmap prio false else r.prio_bitmap;
          });
        }))

-- At priority 0 the code would read in front of its array.
unfoldable pub pick_next : ℕ → ℕ → ℕ → Kernel → Outcome
pick_next core orig prio k =
    if prio == 0
    then fault
    else elim (task_list_pop_front ((k.readyqueues core).queue (prio - 1)) k.links) [
      | none ↦ fault
      | some (none, list, l) ↦ halted
      | some (some id, list, l) ↦ start_task core orig prio id list l k
    ]

-- The running task goes on, goes idle, or is set aside for `finish_task_switch`.
unfoldable pub schedule_from : ℕ → ℕ → ℕ → Kernel → Outcome
schedule_from core orig curr k =
    let t = k.task_table curr in
    let prio = msb (k.readyqueues core).prio_bitmap in
    if ltb max_prio prio
    then (if is_running t.status || is_idle t.status
        then get_task_out orig curr k
        else switch_to_idle core orig k)
    else (if ltb prio t.prio && is_running t.status
        then get_task_out orig curr k
        else (if is_running t.status
            then pick_next core orig prio
                (set_old core (some curr) (set_task k curr (record t { status = Status.ready })))
            else pick_next core orig prio k))

unfoldable pub scheduler : ℕ → Kernel → Outcome
scheduler core k =
    let curr = k.current_task core in
    let t = k.task_table curr in
    let old : Option ℕ = if is_finished t.status then some curr else none in
    let k1 = set_old core old (set_task k curr (record t { last_core = core })) in
    if k.go_down
    then (if is_idle t.status then get_task_out curr curr k1 else elim (k.readyqueues core).idle [
      | none ↦ fault
      | some id ↦ schedule_from core curr id (make_current core id k1)
    ])
    else schedule_from core curr curr k1

abbrev pub release : (ℕ → Release) → Option ℕ → List Release → List Release
release f none log = log
release f (some a) log = f a ∷ log

-- The cleanup of a finished task; its slot of the table is free afterwards.
unfoldable pub clean_up : ℕ → ℕ → Kernel → Kernel
clean_up core id k =
    let t = k.task_table id in
    let r = k.readyqueues core in
    let heap : Option ℕ = if t.parent == 0 then t.heap else none in
    record k {
      task_table = update k.task_table id (record t {
        stack = none;
        heap = if t.parent == 0 then none else t.heap;
        ist_addr = none;
        last_stack_pointer = none;
        status = Status.invalid;
      });
      readyqueues =
          update k.readyqueues core
            (record r { fpu_owner = if r.fpu_owner == id then 0 else r.fpu_owner });
      released =
          release ist_of t.ist_addr (release heap_of heap (release stack_of t.stack k.released));
    }

unfoldable pub finish_task_switch : ℕ → Kernel → Kernel
finish_task_switch core k =
    let r = k.readyqueues core in
    elim r.old_task [
      | none ↦ k
      | some old ↦
          let k1 = set_old core none k in
          if is_finished (k.task_table old).status
          then clean_up core old k1
          else readyqueues_push_back core old k1
    ]

-- `do_exit` up to its call of `reschedule`. The release of the thread-local storage is not
-- modelled.
unfoldable pub leave_task : ℕ → Kernel → Kernel
leave_task core k =
    let k1 = count_down core k in
    let id = k.current_task core in
    set_task k1 id (record (k1.task_table id) { status = Status.finished })

pub data TaskError : Type 0 where
  enomem enoent einval : TaskError

-- `get_task`, for a `task` pointer that is not NULL; `max_tasks` is the size of the table.
unfoldable pub get_task : ℕ → ℕ → Kernel → TaskError ⊎ ℕ
get_task max_tasks id k =
    if leb max_tasks id
    then inl enoent
    else if is_invalid (k.task_table id).status
    then inl einval
    else inr id

-- The first slot of the table, from `i` on and below `i + n`, that holds no task.
unfoldable pub find_free : ℕ → ℕ → (ℕ → Task) → Option ℕ
find_free zero i table = none
find_free (suc n) i table =
    let rest = find_free n (i + 1) table in if is_invalid (table i).status then some i else rest

-- `set_idle_task`; `none` is its result `~0`, when the table is full.
unfoldable pub set_idle_task : ℕ → ℕ → Kernel → Option ℕ × Kernel
unfolding find_free
set_idle_task max_tasks core k = elim (find_free max_tasks 0 k.task_table) [
  | none ↦ (none, k)
  | some i ↦
      let t = k.task_table i in
      let r = k.readyqueues core in
      (
        some i,
        make_current core i (record k {
          task_table = update k.task_table i (record t {
            status = Status.idle;
            last_core = core;
            last_stack_pointer = none;
            stack = none;
            ist_addr = none;
            prio = 0;
            heap = none;
          });
          readyqueues = update k.readyqueues core (record r { idle = some i });
        }),
      )
]
