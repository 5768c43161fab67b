-- ===== src/TaskList/Defs.antt =====
-- include/hermit/tasks_types.h: `struct task`'s links, `task_list_t`, and the three list
-- operations.
use libhermit.Base.{ℕ, Option, none, some, if◌then◌else◌, ptr_eq, update, update_at}

-- The fields `next` and `prev` of every task.
pub record Links : Type 0 where
  pub next : ℕ → Option ℕ
  pub prev : ℕ → Option ℕ

pub record TaskList : Type 0 where
  pub first : Option ℕ
  pub last : Option ℕ

abbrev pub empty_list : TaskList
empty_list = record { first = none; last = none }

-- `task->prev->next = task->next` under its test, then `task->next->prev = task->prev` under its.
abbrev pub unlink_prev : Links → ℕ → Links
unlink_prev l task = record l { next = update_at l.next (l.prev task) (l.next task) }

abbrev pub unlink_next : Links → ℕ → Links
unlink_next l task = record l { prev = update_at l.prev (l.next task) (l.prev task) }

unfoldable pub task_list_remove_task : TaskList → ℕ → Links → TaskList × Links
task_list_remove_task list task l =
    let l1 = unlink_prev l task in
    let l2 = unlink_next l1 task in
    let last : Option ℕ = if ptr_eq list.last (some task) then l2.prev task else list.last in
    let first : Option ℕ = if ptr_eq list.first (some task) then l2.next task else list.first in
    (record { first = first; last = last }, l2)

unfoldable pub push_back_at : Option ℕ → TaskList → ℕ → Links → TaskList × Links
push_back_at (some z) list task l = (
  record list { last = some task },
  record {
    next = update (update l.next task none) z (some task);
    prev = update l.prev task (some z);
  },
)
push_back_at none list task l = (
  record { first = some task; last = some task },
  record { next = update l.next task none; prev = update l.prev task none },
)

unfoldable pub task_list_push_back : TaskList → Option ℕ → Links → TaskList × Links
unfolding push_back_at
task_list_push_back list none l = (list, l)
task_list_push_back list (some task) l = push_back_at list.last list task l

-- The list after its head `task` is taken off, by the head's successor.
pop_first : Option ℕ → Links → TaskList → TaskList × Links
pop_first none l list = (record { first = none; last = none }, l)
pop_first (some n) l list =
    (record list { first = some n }, record l { prev = update l.prev n none })

abbrev pub clear_links : Links → ℕ → Links
clear_links l task = record { next = update l.next task none; prev = update l.prev task none }

pop_front_at : Option ℕ → TaskList → Links → Option (Option ℕ × TaskList × Links)
unfolding pop_first
pop_front_at none list l = none
pop_front_at (some task) list l =
    let (list', l') = pop_first (l.next task) l list in some (some task, list', clear_links l' task)

-- `none` is the fault of the last write, `task->next = task->prev = NULL`, through a NULL `task`.
unfoldable pub task_list_pop_front : TaskList → Links → Option (Option ℕ × TaskList × Links)
unfolding pop_front_at
task_list_pop_front list l = pop_front_at list.first list l
