-- ===== src/Sched/Due.antt =====
-- The tasks that are due, those that still wait, and what waking one leaves alone.
use libhermit.Base.{
  ℕ, suc, ◌≡◌, refl, Bool, false, Option, none, some, List, [], ◌∷◌, ◌++◌, arith, ◌==◌, leb,
  if◌then◌else◌, if-elim, ptr_eq, ◌∙◌,
}
use libhermit.TaskList.{Chain, Links}
use libhermit.Sched.Defs.{Status, Kernel, is_blocked, set_task, readyqueues_push_back}
use libhermit.Sched.Timer.{update_timer, timer_queue_remove}
use libhermit.Sched.Ops.{leave_timers, wakeup_task}
use libhermit.Sched.Inv.{IsOrdered, IsValid}

-- The tasks of a timer queue that are due at `now`, and those that are not.
abbrev pub due : (ℕ → ℕ) → ℕ → List ℕ → List ℕ
due key now [] = []
due key now (x ∷ xs) = if leb (key x) now then x ∷ due key now xs else due key now xs

abbrev pub pending : (ℕ → ℕ) → ℕ → List ℕ → List ℕ
pending key now [] = []
pending key now (x ∷ xs) = if leb (key x) now then pending key now xs else x ∷ pending key now xs

-- The tasks of priority `i + 1`, in their order.
abbrev pub of_prio : (ℕ → ℕ) → ℕ → List ℕ → List ℕ
of_prio prio i [] = []
of_prio prio i (x ∷ xs) = if prio x == suc i then x ∷ of_prio prio i xs else of_prio prio i xs

-- The ready queues after the tasks `xs` have been added to core `c`.
abbrev pub arrived : (ℕ → ℕ) → (ℕ → ℕ → List ℕ) → ℕ → List ℕ → ℕ → ℕ → List ℕ
arrived prio qs c xs c' i = if c == c' then qs c' i ++ of_prio prio i xs else qs c' i

-- What `wakeup_task` leaves of the tasks' priorities and timeouts.
pub record IsKept (k k' : Kernel) : Type 0 where
  pub prios : (a : ℕ) → (k'.task_table a).prio ≡ (k.task_table a).prio
  pub timeouts : (a : ℕ) → (k'.task_table a).timeout ≡ (k.task_table a).timeout

pub later_due :
    (key : ℕ → ℕ) (now x : ℕ) (xs : List ℕ)
    → IsOrdered key (x ∷ xs)
    → leb (key x) now ≡ false
    → (due key now (x ∷ xs) ≡ []) × (pending key now (x ∷ xs) ≡ x ∷ xs)
later_due key now x [] o e = ground (arith)
later_due key now x (y ∷ ys) o e = ground (arith, later_due key now y ys)

-- `update_timer` leaves the task table alone.
task_table-update_timer :
    (now here : ℕ) (o : Option ℕ) (k : Kernel)
    → (update_timer now here o k).task_table ≡ k.task_table
unfolding update_timer
task_table-update_timer now here none k = refl
task_table-update_timer now here (some a) k = refl

removed-tasks :
    (now here c t : ℕ) (k : Kernel) → (timer_queue_remove now here c t k).task_table ≡ k.task_table
unfolding timer_queue_remove
removed-tasks now here c t k =
    if-elim (λ (m : Kernel). m.task_table ≡ k.task_table)
      (ptr_eq (k.readyqueues c).timers.first (some t)) (update_timer now here (k.links.next t) k) k
      (λ _. task_table-update_timer now here (k.links.next t) k) (λ _. refl)

leave_timers-IsKept : (now here c t : ℕ) (k : Kernel) → IsKept k (leave_timers now here c t k)
unfolding leave_timers
leave_timers-IsKept now here c t k =
    if-elim (λ m. IsKept k m) (k.task_table t).timer
      (timer_queue_remove now here c t (set_task k t (record (k.task_table t) { timer = false }))) k
      (λ _. record {
        prios = λ a.
            rw
              (removed-tasks now here c t
                (set_task k t (record (k.task_table t) { timer = false })))
              (ground arith);
        timeouts = λ a.
            rw
              (removed-tasks now here c t
                (set_task k t (record (k.task_table t) { timer = false })))
              (ground arith);
      })
      (λ _. record { prios = λ a. refl; timeouts = λ a. refl })

pub wakeup_task-IsKept : (now here t : ℕ) (k : Kernel) → IsKept k (wakeup_task now here t k).1
unfolding wakeup_task readyqueues_push_back
wakeup_task-IsKept now here t k =
    if-elim (λ (r : Bool × Kernel). IsKept k r.1) (is_blocked (k.task_table t).status) _ _
      (λ _.
        let w =
          leave_timers-IsKept now here (k.task_table t).last_core t
            (set_task k t (record (k.task_table t) { status = Status.ready })) in
        record {
          prios = λ a. w.prios a ∙ ground arith;
          timeouts = λ a. w.timeouts a ∙ ground arith;
        })
      (λ _. record { prios = λ a. refl; timeouts = λ a. refl })

abbrev pub first_of : List ℕ → Option ℕ
first_of [] = none
first_of (x ∷ xs) = some x

first-eq : (l : Links) (b p e : Option ℕ) (xs : List ℕ) → Chain l b p xs e → p ≡ first_of xs
first-eq l b p e [] c = c.0
first-eq l b p e (x ∷ xs) c = c.0

pub first_timer :
    {k : Kernel} {qs : ℕ → ℕ → List ℕ} {ts : ℕ → List ℕ} (v : IsValid k qs ts) (c : ℕ)
    → (k.readyqueues c).timers.first ≡ first_of (ts c)
first_timer {k} {ts = ts} v c =
    first-eq k.links none _ (k.readyqueues c).timers.last (ts c) (v.timers c).chain
