-- ===== src/Sched/Inv/Defs.antt =====
-- The invariant of the ready queues and timer queues of all cores.
use libhermit.Base.{
  ℕ, zero, suc, ◌≤◌, ◌<◌, ◌≡◌, Bool, true, false, none, List, [], ◌∷◌, mem, ◌==◌, ◌&&◌,
  if◌then◌else◌,
}
use libhermit.TaskList.{IsTaskList}
use libhermit.Sched.Defs.{Status, Task, Kernel}

abbrev pub has_any : List ℕ → Bool
has_any [] = false
has_any (x ∷ xs) = true

-- A task in the queue of priority `i + 1` of core `c`.
pub record IsQueued (t : Task) (c i : ℕ) : Type 0 where
  pub is_ready : t.status ≡ Status.ready
  pub has_prio : t.prio ≡ suc i
  pub in_range : i < 31
  pub on_core : t.last_core ≡ c

-- A task in the timer queue of core `c`.
pub record IsTimed (t : Task) (c : ℕ) : Type 0 where
  pub is_blocked : t.status ≡ Status.blocked
  pub has_flag : t.timer ≡ true
  pub on_core : t.last_core ≡ c

-- Timeouts do not fall along the list.
abbrev pub IsOrdered : (ℕ → ℕ) → List ℕ → Type 0
IsOrdered key [] = Unit
IsOrdered key (x ∷ []) = Unit
IsOrdered key (x ∷ y ∷ ys) = (key x ≤ key y) × IsOrdered key (y ∷ ys)

-- `qs c i` are the tasks in `readyqueues[c].queue[i]`, `ts c` those in `readyqueues[c].timers`.
pub record IsValid (k : Kernel) (qs : ℕ → ℕ → List ℕ) (ts : ℕ → List ℕ) : Type 0 where
  pub lists : (c i : ℕ) → IsTaskList k.links ((k.readyqueues c).queue i) (qs c i)
  pub bits : (c i : ℕ) → (k.readyqueues c).prio_bitmap (suc i) ≡ has_any (qs c i)
  pub no_idle_bit : (c : ℕ) → (k.readyqueues c).prio_bitmap zero ≡ false
  pub queued : (c i a : ℕ) → mem a (qs c i) ≡ true → IsQueued (k.task_table a) c i
  pub timers : (c : ℕ) → IsTaskList k.links (k.readyqueues c).timers (ts c)
  pub timed : (c a : ℕ) → mem a (ts c) ≡ true → IsTimed (k.task_table a) c
  pub ordered : (c : ℕ) → IsOrdered (λ a. (k.task_table a).timeout) (ts c)
  pub flagged :
      (a : ℕ) → (k.task_table a).timer ≡ true → mem a (ts (k.task_table a).last_core) ≡ true
  -- a running task is in no list, and its links are NULL
  pub alone :
      (a : ℕ)
      → (k.task_table a).status ≡ Status.running
      → (k.links.next a ≡ none) × (k.links.prev a ≡ none)

-- The queues after the tasks of queue `i` of core `c` become `xs`.
abbrev pub requeue : (ℕ → ℕ → List ℕ) → ℕ → ℕ → List ℕ → ℕ → ℕ → List ℕ
requeue qs c i xs c' i' = if c == c' && i == i' then xs else qs c' i'

-- The timer queues after the one of core `c` becomes `xs`.
abbrev pub retime : (ℕ → List ℕ) → ℕ → List ℕ → ℕ → List ℕ
retime ts c xs c' = if c == c' then xs else ts c'
