-- ===== src/Sched/Finish.antt =====
-- `finish_task_switch` requeues or cleans up the task that lost the core.
use libhermit.Base.{
  ℕ, ◌≡◌, refl, false, some, none, List, [], ◌∷◌, ◌++◌, arith, ◌==◌, ==-refl, if◌then◌else◌, mem,
  ap, ◌∙◌,
}
use libhermit.Sched.Defs.{
  Status, Task, Kernel, is_finished, set_task, readyqueues_push_back, stack_of, ist_of, heap_of,
}
use libhermit.Sched.Switch.{set_old, release, clean_up, finish_task_switch}
use libhermit.Sched.Inv.{IsQueued, IsValid, requeue, IsSame, same-IsValid, set_task-IsValid}
use libhermit.Sched.Queue.{push_back-IsValid}

module _ {k : Kernel} {qs : ℕ → ℕ → List ℕ} {ts : ℕ → List ℕ} (v : IsValid k qs ts) (c t : ℕ)
    (old : (k.readyqueues c).old_task ≡ some t) where
  set_old-IsValid : IsValid (set_old c none k) qs ts
  set_old-IsValid = same-IsValid v (record {
    links = refl;
    tasks = λ a. refl;
    queue = λ c' j. ground arith;
    bits = λ c' j. ground arith;
    timers = λ c'. ground arith;
  })

  abbrev noted : Kernel
  noted = set_old c none k

  finish-eq : finish_task_switch c k ≡ (
      if is_finished (k.task_table t).status
      then clean_up c t noted
      else readyqueues_push_back c t noted)
  unfolding finish_task_switch
  finish-eq = ground (arith, old)

  -- The slot of the finished task after the cleanup.
  abbrev wiped : Task
  wiped = record (k.task_table t) {
    stack = none;
    heap = if (k.task_table t).parent == 0 then none else (k.task_table t).heap;
    ist_addr = none;
    last_stack_pointer = none;
    status = Status.invalid;
  }

  clean_up-IsSame : IsSame (set_task noted t wiped) (clean_up c t noted)
  unfolding clean_up
  clean_up-IsSame = record {
    links = refl;
    tasks = λ a. refl;
    queue = λ c' j. ground arith;
    bits = λ c' j. ground arith;
    timers = λ c'. ground arith;
  }

  -- In a valid state, if the old task of the core is ready, belongs to queue `i` and is not in it,
  -- then it goes to the end of that queue, and the note of it is cleared.
  pub finish-requeues :
      (i : ℕ)
      → IsQueued (k.task_table t) c i
      → mem t (qs c i) ≡ false
      → IsValid (finish_task_switch c k) (requeue qs c i (qs c i ++ t ∷ [])) ts
        × (((finish_task_switch c k).readyqueues c).old_task ≡ none)
  unfolding readyqueues_push_back
  finish-requeues i q out =
      rw
        (finish-eq
          ∙ ap (λ b. if b then clean_up c t noted else readyqueues_push_back c t noted)
              (ap is_finished q.is_ready))
        (push_back-IsValid set_old-IsValid c i t q out, rw (==-refl c))

  -- A finished task gives its slot, its stacks and, if it has no parent, its heap back, and the
  -- invariant is kept.
  pub finish-cleans :
      (k.task_table t).status ≡ Status.finished
      → let k' = finish_task_switch c k in
        let task = k.task_table t in
        IsValid k' qs ts
        × ((k'.task_table t).status ≡ Status.invalid)
        × (k'.released
            ≡ release ist_of task.ist_addr (
                release heap_of
                  (if task.parent == 0 then task.heap else none)
                  (release stack_of task.stack k.released)))
        × ((k'.readyqueues c).old_task ≡ none)
  unfolding clean_up
  finish-cleans done =
      rw
        (finish-eq
          ∙ ap (λ b. if b then clean_up c t noted else readyqueues_push_back c t noted)
              (ap is_finished done))
        (
          same-IsValid
              (set_task-IsValid set_old-IsValid t wiped (λ c' j. ground (arith, v.queued c' j t))
                (λ c'. ground (arith, v.timed c' t))
                (ground (arith, v.flagged t, v.timed (k.task_table t).last_core t))
                (λ r. ground arith))
              clean_up-IsSame,
          rw (==-refl t),
          refl,
          rw (==-refl c) (ground arith),
        )
