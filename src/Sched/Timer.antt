-- ===== src/Sched/Timer.antt =====
-- kernel/tasks.c: `update_timer` and the timer queues, ordered by timeout.
use libhermit.Base.{
  ℕ, zero, suc, ◌-◌, ◌%◌, ◌^◌, Bool, true, false, Option, none, some, ltb, leb, if◌then◌else◌,
  ptr_eq, update, update_at,
}
use libhermit.TaskList.{Links, TaskList, task_list_remove_task}
use libhermit.Sched.Defs.{Kernel}

-- `first` is the head of a timer queue, `here` the core that runs the code and whose timer is set.
-- The ticks left are cut to 32 bits.
unfoldable pub update_timer : ℕ → ℕ → Option ℕ → Kernel → Kernel
update_timer now here none k = record k { alarm = update k.alarm here none }
update_timer now here (some first) k =
    let timeout = (k.task_table first).timeout in
    let ticks : ℕ = if ltb now timeout then (timeout - now) % 2 ^ 32 else 1 in
    record k { alarm = update k.alarm here (some ticks) }

unfoldable pub timer_queue_remove : ℕ → ℕ → ℕ → ℕ → Kernel → Kernel
unfolding update_timer
timer_queue_remove now here core task k =
    let r = k.readyqueues core in
    let k1 =
      if ptr_eq r.timers.first (some task)
      then update_timer now here (k.links.next task) k
      else k in
    let (list, l) = task_list_remove_task r.timers task k.links in
    record k1 { links = l; readyqueues = update k.readyqueues core (record r { timers = list }) }

-- `while (tmp && task->timeout >= tmp->timeout) tmp = tmp->next`; `none` is out of fuel.
unfoldable pub find_slot : ℕ → Links → (ℕ → ℕ) → ℕ → Option ℕ → Option (Option ℕ)
find_slot zero l key t tmp = none
find_slot (suc fuel) l key t none = some none
find_slot (suc fuel) l key t (some x) = elim (leb (key x) t) [
  | true ↦ find_slot fuel l key t (l.next x)
  | false ↦ some (some x)
]

-- Behind the last task: there is one, since there is a first one.
abbrev pub insert_last : TaskList → ℕ → Links → TaskList × Links × Bool
insert_last list task l = (
  record list { last = some task },
  record {
    next = update_at (update l.next task none) list.last (some task);
    prev = update l.prev task list.last;
  },
  false,
)

-- In front of `tmp`. The flag says that the task is the new head.
abbrev pub insert_before : TaskList → ℕ → ℕ → Links → TaskList × Links × Bool
insert_before list tmp task l =
    let head = ptr_eq list.first (some tmp) in
    (
      (if head then record list { first = some task } else list),
      record {
        next = update_at (update l.next task (some tmp)) (l.prev tmp) (some task);
        prev = update (update l.prev task (l.prev tmp)) tmp (some task);
      },
      head,
    )

abbrev pub insert_at : Option ℕ → TaskList → ℕ → Links → TaskList × Links × Bool
insert_at none list task l = insert_last list task l
insert_at (some tmp) list task l = insert_before list tmp task l

abbrev pub insert_first : ℕ → Links → TaskList × Links × Bool
insert_first task l = (
  record { first = some task; last = some task },
  record { next = update l.next task none; prev = update l.prev task none },
  true,
)

-- The list part of `timer_queue_push`.
unfoldable pub timer_insert : ℕ → (ℕ → ℕ) → TaskList → ℕ → Links → Option (TaskList × Links × Bool)
unfolding find_slot
timer_insert fuel key list task l = elim list.first [
  | none ↦ some (insert_first task l)
  | some first ↦ elim (find_slot fuel l key (key task) (some first)) [
    | none ↦ none
    | some slot ↦ some (insert_at slot list task l)
  ]
]

-- `update_timer(task)` is called where the task becomes the head.
unfoldable pub timer_queue_push : ℕ → ℕ → ℕ → ℕ → ℕ → Kernel → Option Kernel
unfolding timer_insert update_timer
timer_queue_push fuel now here core task k =
    let r = k.readyqueues core in
    elim (timer_insert fuel (λ t. (k.task_table t).timeout) r.timers task k.links) [
      | none ↦ none
      | some (list, l, head) ↦
          let k1 = if head then update_timer now here (some task) k else k in
          some (record k1 {
            links = l;
            readyqueues = update k.readyqueues core (record r { timers = list });
          })
    ]
