-- ===== src/Sched/Boot.antt =====
-- kernel/tasks.c: `multitasking_init`, `set_boot_stack` and `check_scheduling`.
use libhermit.Base.{
  ℕ, ◌+◌, ◌-◌, ◌*◌, ◌/◌, ◌%◌, ◌^◌, Bool, true, false, Option, none, some, ltb, ◌==◌, if◌then◌else◌,
  ◌&&◌, update,
}
use libhermit.Sched.Defs.{Kernel, is_idle, set_task, get_highest_priority}
use libhermit.Sched.Switch.{make_current}

-- `true` is the result 0, `false` is -ENOMEM.
unfoldable pub multitasking_init : ℕ → Kernel → Bool × Kernel
multitasking_init core k =
    let t = k.task_table 0 in
    let r = k.readyqueues core in
    if is_idle t.status
    then (
      true,
      make_current core 0 (record k {
        task_table = update k.task_table 0 (record t { prio = 0; stack = none; ist_addr = none });
        readyqueues = update k.readyqueues core (record r { idle = some 0 });
      }),
    )
    else (false, k)

-- `true` is the result 0, `false` is -EINVAL; an address 0 is given as `none`.
unfoldable pub set_boot_stack : ℕ → ℕ → Option ℕ → Option ℕ → Kernel → Bool × Kernel
set_boot_stack max_cores id stack ist_addr k =
    if ltb id max_cores
    then (true, set_task k id (record (k.task_table id) { stack = stack; ist_addr = ist_addr }))
    else (false, k)

-- Whether `check_scheduling` calls `reschedule`. `tsc` is the time stamp counter, `last_tsc` the
-- field of the current task, `mhz` what `get_cpu_frequency` gives, above 0, and `timer_freq` is
-- TIMER_FREQ.
unfoldable pub check_scheduling : ℕ → ℕ → ℕ → ℕ → ℕ → Kernel → Bool
check_scheduling core tsc last_tsc mhz timer_freq k =
    let prio = get_highest_priority k core in
    let curr = k.task_table (k.current_task core) in
    let diff_cycles = (tsc + 2 ^ 64 - last_tsc) % 2 ^ 64 in
    let cpu_freq_hz = 1000000 * mhz % 2 ^ 64 in
    if ltb curr.prio prio
    then true
    else if ltb 0 prio && prio == curr.prio
    then ltb 0 (diff_cycles * timer_freq % 2 ^ 64 / cpu_freq_hz)
    else false
