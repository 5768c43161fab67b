-- ===== src/TaskList.antt =====
-- include/hermit/tasks_types.h: `task_list_t` and its operations. The lists are intrusive: the
-- links stand in the tasks, and a task is named by its index in `task_table`; `none` is NULL.
mod Defs
mod Shape
mod Push
mod Pop
mod Remove
unfoldable pub use Defs.*
pub use Shape.*
pub use Push.*
pub use Pop.*
pub use Remove.*
