-- ===== src/Sched/Block.antt =====
-- `block_task` keeps the invariant.
use libhermit.Base.{
  ℕ, suc, ◌-◌, ◌≡◌, refl, Bool, true, false, none, List, arith, ==-refl, if◌then◌else◌, mem, ap,
  subst, sym,
}
use libhermit.TaskList.{task_list_remove_task, remove_task_alone}
use libhermit.Sched.Defs.{Status, Kernel, is_running, set_task, readyqueues_remove}
use libhermit.Sched.Ops.{count_down, block_task}
use libhermit.Sched.Inv.{IsValid, IsSame, same-IsValid, set_task-IsValid}
use libhermit.Sched.Queue.{first-has_any}

module _ {k : Kernel} {qs : ℕ → ℕ → List ℕ} {ts : ℕ → List ℕ} (v : IsValid k qs ts) (c t i : ℕ)
    (has_prio : (k.task_table t).prio ≡ suc i) (out : mem t (qs c i) ≡ false)
    (alone : (k.links.next t ≡ none) × (k.links.prev t ≡ none)) where
  idx : (k.task_table t).prio - 1 ≡ i
  idx = ground arith

  remove_nothing :
      task_list_remove_task ((k.readyqueues c).queue i) t k.links
      ≡ ((k.readyqueues c).queue i, k.links)
  remove_nothing =
      remove_task_alone k.links ((k.readyqueues c).queue i) (qs c i) t (v.lists c i) out alone.0
        alone.1

  -- Removing a task that is in no list leaves every list as it is.
  readyqueues_remove-IsSame : IsSame k (readyqueues_remove c t k)
  unfolding readyqueues_remove
  readyqueues_remove-IsSame = record {
    links = rw (idx, remove_nothing);
    tasks = λ a. refl;
    queue = λ c' j. rw (idx, remove_nothing) (ground arith);
    bits = λ c' j.
        rw (idx, remove_nothing)
          (ground (
            arith,
            first-has_any k.links ((k.readyqueues c).queue i) (qs c i) (v.lists c i),
            v.bits c i,
          ));
    timers = λ c'. ground arith;
  }

count_down-IsSame : (c : ℕ) (k : Kernel) → IsSame k (count_down c k)
count_down-IsSame c k = record {
  links = refl;
  tasks = λ a. refl;
  queue = λ c' j. ground arith;
  bits = λ c' j. ground arith;
  timers = λ c'. ground arith;
}

module _ {k : Kernel} {qs : ℕ → ℕ → List ℕ} {ts : ℕ → List ℕ} (v : IsValid k qs ts) (t i : ℕ)
    (awake : (k.task_table t).status ≡ Status.running)
    (has_prio : (k.task_table t).prio ≡ suc i) where
  abbrev core : ℕ
  core = (k.task_table t).last_core

  abbrev pub stopped : Kernel
  stopped = set_task k t (record (k.task_table t) { status = Status.blocked })

  unflagged : (k.task_table t).timer ≡ false
  unflagged = ground (arith, v.flagged t, v.timed (k.task_table t).last_core t)

  stopped-IsValid : IsValid stopped qs ts
  stopped-IsValid =
      set_task-IsValid v t (record (k.task_table t) { status = Status.blocked })
        (λ c' j. ground (arith, v.queued c' j t)) (λ c'. ground (arith, v.timed c' t)) unflagged
        (λ r. ground arith)

  block-eq : block_task t k ≡ (true, count_down core (readyqueues_remove core t stopped))
  unfolding block_task
  block-eq =
      ap
        (λ b. if b then (true, count_down core (readyqueues_remove core t stopped)) else (false, k))
        (ap is_running awake)

  -- Blocking a running task succeeds. No queue changes, since a running task is in none, and the
  -- invariant is kept.
  pub block_task-IsValid :
      let (done, k') = block_task t k in
      (done ≡ true) × IsValid k' qs ts × ((k'.task_table t).status ≡ Status.blocked)
  unfolding readyqueues_remove
  block_task-IsValid =
      subst
        (λ (r : Bool × Kernel).
          (r.0 ≡ true) × IsValid r.1 qs ts × ((r.1.task_table t).status ≡ Status.blocked))
        (sym block-eq)
        (
          refl,
          same-IsValid
              (same-IsValid stopped-IsValid (
                readyqueues_remove-IsSame stopped-IsValid core t i (rw (==-refl t) has_prio)
                  (ground (arith, v.queued core i t)) (v.alone t awake)))
              (count_down-IsSame core (readyqueues_remove core t stopped)),
          rw (==-refl t),
        )

  -- No other task changes.
  pub task_table-block : (block_task t k).1.task_table ≡ stopped.task_table
  unfolding readyqueues_remove
  task_table-block = ap (λ (r : Bool × Kernel). r.1.task_table) block-eq
