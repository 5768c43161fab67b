-- ===== src/Sched/Create.antt =====
-- kernel/tasks.c: `get_next_core_id`, `clone_task` and `create_task`. What `create_stack`,
-- `kmalloc` and `create_default_frame` give is an argument: `none` is NULL, and for `frame` it is
-- the result 0. A `frame` that is `some e` is the error `e`. `max_tasks` and `max_cores` are the
-- configured numbers.
use libhermit.Base.{
  ℕ, zero, suc, ◌+◌, ◌-◌, ◌*◌, ◌%◌, ◌^◌, Bool, true, Option, none, some, List, [], ◌∷◌, ltb, leb,
  ◌==◌, if◌then◌else◌, is_some, not, ◌||◌, update, update_at,
}
use libhermit.TaskList.{Links, TaskList}
use libhermit.Sched.Defs.{
  Status, Task, Release, stack_of, ist_of, heap_of, Kernel, max_prio, set_task,
}
use libhermit.Sched.Switch.{find_free}

pub data CreateCode : Type 0 where
  ok einval enomem : CreateCode
  frame_error : ℕ → CreateCode

-- The search of `get_next_core_id`.
unfoldable pub next_idle : ℕ → ℕ → ℕ → Kernel → ℕ
next_idle zero max_cores c k = c
next_idle (suc n) max_cores c k =
    let rest = next_idle n max_cores ((c + 1) % max_cores) k in
    if is_some (k.readyqueues c).idle then c else rest

-- The result and the new value of the static variable `core_id`.
unfoldable pub get_next_core_id : ℕ → ℕ → ℕ → Kernel → ℕ × ℕ
get_next_core_id max_cores here core_id k =
    let last = if leb max_cores core_id then here else core_id in
    let c = next_idle (2 * max_cores) max_cores ((last + 1) % max_cores) k in
    (if is_some (k.readyqueues c).idle then c else max_cores, c)

-- The links and the queue after the new task is appended. A queue with a first task has a last one.
abbrev pub append_new : TaskList → ℕ → Links → TaskList × Links
append_new list id l =
    if is_some list.first
    then (
      record list { last = some id },
      record {
        next = update_at (update l.next id none) list.last (some id);
        prev = update l.prev id list.last;
      },
    )
    else (
      record { first = some id; last = some id },
      record { next = update l.next id none; prev = update l.prev id none },
    )

-- `add task in the readyqueues`
unfoldable pub enqueue_new : ℕ → ℕ → ℕ → Kernel → Kernel
enqueue_new core id prio k =
    let r = k.readyqueues core in
    let (list, l) = append_new (r.queue (prio - 1)) id k.links in
    record k {
      links = l;
      readyqueues = update k.readyqueues core (record r {
        prio_bitmap = update r.prio_bitmap prio true;
        nr_tasks = (r.nr_tasks + 1) % 2 ^ 32;
        queue = update r.queue (prio - 1) list;
      });
    }

-- The slot of the new task. Its `flags` and `timeout` are not set.
abbrev pub new_task : Task → ℕ → ℕ → ℕ → ℕ → Option ℕ → ℕ → Task
new_task t core prio stack ist heap parent = record t {
  status = Status.ready;
  last_core = core;
  last_stack_pointer = none;
  stack = some stack;
  prio = prio;
  heap = heap;
  parent = parent;
  ist_addr = some ist;
}

abbrev pub give_back : List Release → Kernel → Kernel
give_back rs k = record k { released = append rs k.released }
  where
    append : List Release → List Release → List Release
    append [] ys = ys
    append (x ∷ xs) ys = x ∷ append xs ys

-- The part of `create_task` and `clone_task` behind the search for a slot. `failed` is given back
-- where the frame cannot be made, latest first.
abbrev pub start_new :
    ℕ → ℕ → ℕ → Task → Option ℕ → List Release → Kernel → CreateCode × Option ℕ × Kernel
start_new core prio id t frame failed k = elim frame [
  | none ↦ (ok, some id, enqueue_new core id prio (set_task k id t))
  | some e ↦ (frame_error e, some id, give_back failed (set_task k id t))
]

-- The argument checks of `create_task`.
abbrev pub bad_create : ℕ → Bool → ℕ → ℕ → Kernel → Bool
bad_create max_cores ep prio core k =
    not ep
    || prio == 0
    || ltb max_prio prio
    || leb max_cores core
    || not (is_some (k.readyqueues core).idle)

-- The second component is what is written to `*id`. Where `counter` is NULL, the stack is destroyed
-- twice, first with the size of an interrupt stack.
unfoldable pub create_task :
    ℕ
    → ℕ
    → Bool
    → ℕ
    → ℕ
    → Option ℕ
    → Option ℕ
    → Option ℕ
    → Option ℕ
    → Kernel
    → CreateCode × Option ℕ × Kernel
create_task max_tasks max_cores ep prio core stack ist counter frame k =
    if bad_create max_cores ep prio core k then (einval, none, k) else elim stack [
      | none ↦ (enomem, none, k)
      | some st ↦ elim ist [
        | none ↦ (enomem, none, give_back (stack_of st ∷ []) k)
        | some is ↦ elim counter [
          | none ↦ (enomem, none, give_back (stack_of st ∷ ist_of st ∷ []) k)
          | some cn ↦
              let failed : List Release = heap_of cn ∷ ist_of is ∷ stack_of st ∷ [] in
              elim (find_free max_tasks 0 k.task_table) [
                | none ↦ (enomem, none, give_back failed k)
                | some id ↦
                    start_new core prio id (new_task (k.task_table id) core prio st is none 0) frame
                      failed k
              ]
        ]
      ]
    ]

-- The task runs on the core that `get_next_core_id` chooses; `curr` is the running task.
unfoldable pub clone_task :
    ℕ
    → ℕ
    → ℕ
    → ℕ
    → Bool
    → ℕ
    → Option ℕ
    → Option ℕ
    → Option ℕ
    → Kernel
    → CreateCode × Option ℕ × ℕ × Kernel
clone_task max_tasks max_cores here core_id ep prio stack ist frame k =
    if not ep || prio == 0 || ltb max_prio prio then (einval, none, core_id, k) else elim stack [
      | none ↦ (enomem, none, core_id, k)
      | some st ↦ elim ist [
        | none ↦ (enomem, none, core_id, give_back (stack_of st ∷ []) k)
        | some is ↦
            let failed : List Release = ist_of is ∷ stack_of st ∷ [] in
            let (core, core_id') = get_next_core_id max_cores here core_id k in
            let curr = k.current_task here in
            if leb max_cores core
            then (einval, none, core_id', give_back failed k)
            else elim (find_free max_tasks 0 k.task_table) [
              | none ↦ (einval, none, core_id', give_back failed k)
              | some id ↦
                  let (code, out, k') =
                    start_new core prio id
                      (new_task (k.task_table id) core prio st is (k.task_table curr).heap curr)
                      frame failed k in
                  (code, out, core_id', k')
            ]
      ]
    ]

-- `create_kernel_task_on_core`, and `create_kernel_task` for the core that runs the code. 8 is
-- NORMAL_PRIO.
unfoldable pub create_kernel_task :
    ℕ
    → ℕ
    → Bool
    → ℕ
    → ℕ
    → Option ℕ
    → Option ℕ
    → Option ℕ
    → Option ℕ
    → Kernel
    → CreateCode × Option ℕ × Kernel
unfolding create_task
create_kernel_task max_tasks max_cores ep prio core stack ist counter frame k =
    create_task max_tasks max_cores ep (if ltb max_prio prio then 8 else prio) core stack ist
      counter frame k
