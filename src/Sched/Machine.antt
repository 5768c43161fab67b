-- ===== src/Sched/Machine.antt =====
-- A machine for the tests: core 0 has an idle task 0, a running task 1, a ready task 2, a blocked
-- task 3, a finished task 4 and a ready task 5.
use libhermit.Base.{
  inl, inr, true, Bool-cases, update, ℕ, refl, Bool, false, Option, none, some, List, [], ◌∷◌,
  arith, ◌==◌, if◌then◌else◌,
}
use libhermit.TaskList.{IsTaskList}
use libhermit.Sched.Defs.{Status, Task, Kernel, readyqueues_push_back}
use libhermit.Sched.Inv.{IsQueued, IsValid, requeue}
use libhermit.Sched.Queue.{push_back-IsValid}

abbrev pub task : Status → ℕ → Task
task s p = record {
  status = s;
  last_core = 0;
  prio = p;
  timer = false;
  timeout = 0;
  stack = some 4096;
  ist_addr = some 8192;
  heap = none;
  parent = 0;
  last_stack_pointer = none;
}

abbrev pub table : ℕ → Task
table a =
    if a == 0
    then task Status.idle 0
    else if a == 1
    then task Status.running 2
    else if a == 2
    then task Status.ready 4
    else if a == 3
    then task Status.blocked 5
    else if a == 4
    then task Status.finished 1
    else if a == 5
    then task Status.ready 1
    else task Status.invalid 0

-- No task is queued yet; `p` is the running task's priority.
abbrev pub machine : Bool → Option ℕ → Kernel
machine down old = record {
  task_table = table;
  links = record { next = λ a. none; prev = λ a. none };
  readyqueues = λ c. record {
    idle = some 0;
    old_task = old;
    fpu_owner = 0;
    nr_tasks = 2;
    prio_bitmap = λ b. false;
    queue = λ i. record { first = none; last = none };
    timers = record { first = none; last = none };
  };
  current_task = λ c. 1;
  go_down = down;
  alarm = λ c. none;
  released = [];
}

abbrev pub no_queues : ℕ → ℕ → List ℕ
no_queues c i = []

abbrev pub no_timers : ℕ → List ℕ
no_timers c = []

pub machine-IsValid :
    (down : Bool) (old : Option ℕ) → IsValid (machine down old) no_queues no_timers
machine-IsValid down old = record {
  lists = λ c i. record { chain = (refl, refl); distinct = ground arith };
  bits = λ c i. refl;
  no_idle_bit = λ c. refl;
  queued = λ c i a m. absurd (ground arith);
  timers = λ c. record { chain = (refl, refl); distinct = ground arith };
  timed = λ c a m. absurd (ground arith);
  ordered = λ c. ground arith;
  flagged = λ a m. absurd (ground arith);
  alone = λ a r. (refl, refl);
}

pub two-IsQueued : IsQueued (table 2) 0 3
two-IsQueued = record { is_ready = refl; has_prio = refl; in_range = omega arith; on_core = refl }

-- Task 2 is queued.
abbrev pub loaded : Bool → Kernel
loaded down = readyqueues_push_back 0 2 (machine down none)

abbrev pub queues : ℕ → ℕ → List ℕ
queues = requeue no_queues 0 3 (2 ∷ [])

pub loaded-IsValid : (down : Bool) → IsValid (loaded down) queues no_timers
loaded-IsValid down = push_back-IsValid (machine-IsValid down none) 0 3 2 two-IsQueued refl

-- Tasks 3 and 6 wait in the timer queue of core 0, until the ticks 10 and 20.
abbrev pub sleeper : ℕ → Task
sleeper t = record (task Status.blocked 5) { timer = true; timeout = t }

abbrev pub asleep : Kernel
asleep = record (machine false none) {
  task_table = update (update table 3 (sleeper 10)) 6 (sleeper 20);
  links = record { next = update (λ a. none) 3 (some 6); prev = update (λ a. none) 6 (some 3) };
  readyqueues = λ c. record ((machine false none).readyqueues c) {
    timers =
        if c == 0
        then record { first = some 3; last = some 6 }
        else record { first = none; last = none };
  };
}

abbrev pub sleepers : ℕ → List ℕ
sleepers c = if c == 0 then 3 ∷ 6 ∷ [] else []

sleepers-IsTaskList : (c : ℕ) → IsTaskList asleep.links (asleep.readyqueues c).timers (sleepers c)
sleepers-IsTaskList c = elim (Bool-cases (c == 0)) [
  | inl e ↦
      rw e (record { chain = (refl, refl, (refl, refl, (refl, refl))); distinct = ground arith })
  | inr n ↦ rw n (record { chain = (refl, refl); distinct = ground arith })
]

pub asleep-IsValid : IsValid asleep no_queues sleepers
asleep-IsValid = record {
  lists = λ c i. record { chain = (refl, refl); distinct = ground arith };
  bits = λ c i. refl;
  no_idle_bit = λ c. refl;
  queued = λ c i a m. absurd (ground arith);
  timers = sleepers-IsTaskList;
  timed = λ c a m. ground arith;
  ordered = λ c. ground arith;
  flagged = λ a m. ground arith;
  alone = λ a r. ground arith;
}
