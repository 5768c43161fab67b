-- ===== src/Semaphore/Defs.antt =====
-- include/hermit/semaphore.h and include/hermit/semaphore_types.h, for a pointer that is not NULL.
-- The lock makes each pass between two calls of `reschedule` one step. `max_tasks` is the
-- configured MAX_TASKS; `here` is the core that runs the code and `now` the clock tick.
use libhermit.Base.{
  ℕ, zero, suc, ◌+◌, ◌-◌, ◌%◌, ◌^◌, Bool, true, false, Option, none, some, List, [], ◌∷◌, ltb, leb,
  if◌then◌else◌, get_or, set,
}
use libhermit.Sched.{Kernel, wakeup_task, block_current_task, set_timer}

pub record Sem : Type 0 where
  pub value : ℕ
  pub queue : List ℕ
  pub wpos : ℕ
  pub rpos : ℕ

abbrev pub replicate : ℕ → ℕ → List ℕ
replicate zero x = []
replicate (suc n) x = x ∷ replicate n x

unfoldable pub sem_init : ℕ → ℕ → Sem
sem_init max_tasks v = record {
  value = v;
  queue = replicate max_tasks max_tasks;
  wpos = 0;
  rpos = 0;
}

-- `true` is the result 0, `false` is -ECANCELED.
unfoldable pub sem_trywait : Sem → Bool × Sem
sem_trywait s = if ltb 0 s.value then (true, record s { value = s.value - 1 }) else (false, s)

-- `(pos + 1) % MAX_TASKS` on an `unsigned int`.
abbrev pub step_pos : ℕ → ℕ → ℕ
step_pos max_tasks pos = (pos + 1) % 2 ^ 32 % max_tasks

-- The task `id` takes the next slot of the queue.
abbrev pub enqueue : ℕ → ℕ → Sem → Sem
enqueue max_tasks id s = record s {
  queue = set s.queue s.wpos id;
  wpos = step_pos max_tasks s.wpos;
}

-- One pass of `sem_wait` without a timeout, from `next_try1` on: `true` if the semaphore is taken,
-- `false` if the pass ends in `reschedule` and another one follows.
unfoldable pub wait_pass : ℕ → ℕ → Sem × Kernel → Bool × Sem × Kernel
wait_pass max_tasks here (s, k) =
    if ltb 0 s.value
    then (true, record s { value = s.value - 1 }, k)
    else (false, enqueue max_tasks (k.current_task here) s, (block_current_task here k).1)

-- What a pass with a timeout leads to.
pub data Pass : Type 0 where
  taken again timed_out : Pass

-- One pass of `sem_wait` with a timeout, from `next_try2` on; `none` is a walk of the timer queue
-- that runs out of fuel.
unfoldable pub timed_pass : ℕ → ℕ → ℕ → ℕ → ℕ → Sem × Kernel → Option (Pass × Sem × Kernel)
timed_pass max_tasks fuel now here deadline (s, k) =
    if ltb 0 s.value
    then some (taken, record s { value = s.value - 1 }, k)
    else if leb deadline now
    then some (timed_out, s, k)
    else elim (set_timer fuel now here deadline k) [
      | none ↦ none
      | some (done, k') ↦ some (again, enqueue max_tasks (k.current_task here) s, k')
    ]

-- `value` is an `unsigned int`; the result of `wakeup_task` is not used.
unfoldable pub sem_post : ℕ → ℕ → ℕ → Sem × Kernel → Sem × Kernel
sem_post max_tasks now here (s, k) =
    let up = record s { value = (s.value + 1) % 2 ^ 32 } in
    let id = get_or s.queue s.rpos 0 in
    if ltb id max_tasks
    then (
      record up { queue = set s.queue s.rpos max_tasks; rpos = step_pos max_tasks s.rpos },
      (wakeup_task now here id k).1,
    )
    else (up, k)
