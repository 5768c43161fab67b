-- ===== src/Sched/Ops.antt =====
-- kernel/tasks.c: waking up, blocking and timers. `here` is the core that runs the code
-- (`CORE_ID`), `now` the clock tick. The queue locks make each function one step.
use libhermit.Base.{
  ℕ, zero, suc, ◌+◌, ◌-◌, ◌%◌, ◌^◌, Bool, true, false, Option, none, some, leb, if◌then◌else◌,
}
use libhermit.Sched.Defs.{
  Status, is_running, is_blocked, Kernel, set_task, set_queue, readyqueues_push_back,
  readyqueues_remove,
}
use libhermit.Sched.Timer.{update_timer, timer_queue_remove, timer_queue_push}

-- `nr_tasks` is a `uint32_t`.
abbrev pub count_up : ℕ → Kernel → Kernel
count_up core k =
    let r = k.readyqueues core in
    set_queue k core (record r { nr_tasks = (r.nr_tasks + 1) % 2 ^ 32 })

abbrev pub count_down : ℕ → Kernel → Kernel
count_down core k =
    let r = k.readyqueues core in
    set_queue k core (record r { nr_tasks = (r.nr_tasks + 2 ^ 32 - 1) % 2 ^ 32 })

-- The task leaves the timer queue, if its flag says that it is in it.
unfoldable pub leave_timers : ℕ → ℕ → ℕ → ℕ → Kernel → Kernel
leave_timers now here core id k =
    let t = k.task_table id in
    if t.timer
    then timer_queue_remove now here core id (set_task k id (record t { timer = false }))
    else k

-- The result is `ret == 0`; otherwise `-EINVAL`. The wake-up interrupt is sent if `nr_tasks` is 1.
unfoldable pub wakeup_task : ℕ → ℕ → ℕ → Kernel → Bool × Kernel
wakeup_task now here id k =
    let t = k.task_table id in
    let core = t.last_core in
    if is_blocked t.status
    then (
      true,
      count_up core (
          readyqueues_push_back core id
            (leave_timers now here core id (set_task k id (record t { status = Status.ready })))),
    )
    else (false, k)

unfoldable pub block_task : ℕ → Kernel → Bool × Kernel
block_task id k =
    let t = k.task_table id in
    let core = t.last_core in
    if is_running t.status
    then (
      true,
      count_down core
          (readyqueues_remove core id (set_task k id (record t { status = Status.blocked }))),
    )
    else (false, k)

unfoldable pub block_current_task : ℕ → Kernel → Bool × Kernel
unfolding block_task
block_current_task here k = block_task (k.current_task here) k

-- `none` is a walk of the timer queue that runs out of fuel.
unfoldable pub set_timer : ℕ → ℕ → ℕ → ℕ → Kernel → Option (Bool × Kernel)
set_timer fuel now here deadline k =
    let id = k.current_task here in
    if is_running (k.task_table id).status
    then (let k1 = (block_task id k).1 in
        let t = k1.task_table id in
        let k2 = set_task k1 id (record t { timer = true; timeout = deadline }) in
        elim (timer_queue_push fuel now here here id k2) [
          | none ↦ none
          | some k3 ↦ some (true, k3)
        ])
    else some (false, k)

-- `while ((task = first) && task->timeout <= current_tick) wakeup_task(task->id)`
unfoldable pub expire : ℕ → ℕ → ℕ → Kernel → Option Kernel
expire zero now here k = none
expire (suc fuel) now here k = elim (k.readyqueues here).timers.first [
  | none ↦ some k
  | some id ↦ elim (leb (k.task_table id).timeout now) [
    | true ↦ expire fuel now here (wakeup_task now here id k).1
    | false ↦ some k
  ]
]

unfoldable pub check_timers : ℕ → ℕ → ℕ → Kernel → Option Kernel
unfolding expire
check_timers fuel now here k = elim (expire fuel now here k) [
  | none ↦ none
  | some k' ↦ elim (k'.readyqueues here).timers.first [
    | none ↦ some k'
    | some id ↦ some (update_timer now here (some id) k')
  ]
]
