-- ===== src/Sched/Wake.antt =====
-- `wakeup_task` moves a blocked task from the timer queue to the end of its ready queue.
use libhermit.Base.{
  ℕ, suc, ◌<◌, ◌≡◌, refl, Bool, true, false, List, [], ◌∷◌, ◌++◌, arith, inl, inr, ◌==◌, ==-refl,
  if◌then◌else◌, mem, erase, mem-erase_self, mem-erase-ne, erase_of_not_mem, Bool-cases, ==_iff,
  fun_ext, subst, sym, ptr_eq, some, none, Option, ◌⊎◌, ◌∙◌, ◌≢◌, ap, if-elim,
}
use libhermit.TaskList.{task_list_remove_task, remove_task-erase, remove_task-Agree}
use libhermit.Sched.Defs.{Status, Task, Kernel, is_blocked, set_task, readyqueues_push_back}
use libhermit.Sched.Timer.{update_timer, timer_queue_remove}
use libhermit.Sched.Ops.{leave_timers, count_up, wakeup_task}
use libhermit.Sched.Inv.{
  IsQueued, IsValid, IsOrdered, requeue, retime, Retimed, Retimed-IsValid, IsSame, same-IsValid,
  set_task-IsValid, IsOrdered-same,
}
use libhermit.Sched.Queue.{push_back-IsValid}

IsOrdered-erase : (f : ℕ → ℕ) (t : ℕ) (xs : List ℕ) → IsOrdered f xs → IsOrdered f (erase t xs)
IsOrdered-erase f t [] o = o
IsOrdered-erase f t (x ∷ []) o = ground arith
IsOrdered-erase f t (x ∷ y ∷ []) o = ground arith
IsOrdered-erase f t (x ∷ y ∷ z ∷ zs) o = ground (arith, IsOrdered-erase f t (y ∷ z ∷ zs) o.1)

ready≢running : Status.ready ≢ Status.running
ready≢running e = ground arith

-- The kernel after `timer_queue_remove`, field by field.
record Unqueued (k k' : Kernel) (c t : ℕ) : Type 0 where
  links : k'.links ≡ (task_list_remove_task (k.readyqueues c).timers t k.links).1
  tasks : k'.task_table ≡ k.task_table
  mine : (k'.readyqueues c).timers ≡ (task_list_remove_task (k.readyqueues c).timers t k.links).0
  others : (c' : ℕ) → (c == c') ≡ false → (k'.readyqueues c').timers ≡ (k.readyqueues c').timers
  queues : (c' i : ℕ) → (k'.readyqueues c').queue i ≡ (k.readyqueues c').queue i
  bits : (c' i : ℕ) → (k'.readyqueues c').prio_bitmap i ≡ (k.readyqueues c').prio_bitmap i

timer_queue_remove-Unqueued :
    (now here c t : ℕ) (k : Kernel) → Unqueued k (timer_queue_remove now here c t k) c t
unfolding timer_queue_remove
timer_queue_remove-Unqueued now here c t k = record {
  links = refl;
  tasks = same_table (k.links.next t) (Bool-cases (ptr_eq (k.readyqueues c).timers.first (some t)));
  mine = rw (==-refl c);
  others = λ c' n. rw n;
  queues = λ c' i. ground arith;
  bits = λ c' i. ground arith;
}
  where
    alarm_only : (o : Option ℕ) → (update_timer now here o k).task_table ≡ k.task_table
    alarm_only none = refl
    alarm_only (some a) = refl

    same_table :
        (o : Option ℕ)
        → (ptr_eq (k.readyqueues c).timers.first (some t) ≡ true)
          ⊎ (ptr_eq (k.readyqueues c).timers.first (some t) ≡ false)
        → (if ptr_eq (k.readyqueues c).timers.first (some t)
            then update_timer now here o k
            else k).task_table
          ≡ k.task_table
    same_table o (inl e) = rw e (alarm_only o)
    same_table o (inr e) = rw e

module _ {k : Kernel} {qs : ℕ → ℕ → List ℕ} {ts : ℕ → List ℕ} (v : IsValid k qs ts)
    (now here c t : ℕ) (asleep : (k.task_table t).status ≡ Status.blocked)
    (on_core : (k.task_table t).last_core ≡ c) where
  -- The kernel with the new status, and the one with the flag cleared too.
  abbrev marked : Kernel
  marked = set_task k t (record (k.task_table t) { status = Status.ready })

  abbrev cleared : Kernel
  cleared = set_task marked t (record (marked.task_table t) { timer = false })

  cleared-Retimed :
      {k' : Kernel}
      → Unqueued cleared k' c t
      → mem t (ts c) ≡ true
      → Retimed k k' qs ts c t (erase t (ts c))
  cleared-Retimed {k'} u m = record {
    list =
        rw (u.links, u.mine)
          (remove_task-erase k.links (k.readyqueues c).timers (ts c) t (v.timers c) m);
    other_timers = u.others;
    same_queues = u.queues;
    same_bits = u.bits;
    same_tasks = λ a n. rw (u.tasks, n);
    same_links = λ a n. rw u.links (
        remove_task-Agree k.links (k.readyqueues c).timers (ts c) t (v.timers c) a m
          (ground arith));
    members = λ a n. mem-erase-ne a t (ts c) n;
    unqueued = λ c' i. ground (arith, v.queued c' i t);
    elsewhere = λ c' n. ground (arith, v.timed c' t, ==_iff c c');
    now_timed = λ n. absurd (ground (arith, mem-erase_self t (ts c) (v.timers c).distinct));
    now_flagged = λ n. rw (u.tasks, ==-refl t);
    now_ordered =
        IsOrdered-same (λ a. (k.task_table a).timeout) (λ a. (k'.task_table a).timeout)
          (erase t (ts c)) (λ a n. ground (arith, u.tasks, ==_iff t a))
          (IsOrdered-erase (λ a. (k.task_table a).timeout) t (ts c) (v.ordered c));
    idle_links = λ r. ready≢running (sym ready_now ∙ r);
  }
    where
      ready_now : (k'.task_table t).status ≡ Status.ready
      ready_now = rw (u.tasks, ==-refl t)

  abbrev woken : Kernel
  woken = leave_timers now here c t marked

  -- The timer queues without the task.
  abbrev without : ℕ → List ℕ
  without = retime ts c (erase t (ts c))

  without_absent : mem t (ts c) ≡ false → without ≡ ts
  without_absent m = fun_ext λ c'. ground (arith, erase_of_not_mem t (ts c), ==_iff c c')

  flag_kept : (marked.task_table t).timer ≡ (k.task_table t).timer
  flag_kept = rw (==-refl t)

  woken-eq :
      woken ≡ (if (k.task_table t).timer then timer_queue_remove now here c t cleared else marked)
  unfolding leave_timers
  woken-eq = ap (λ b. if b then timer_queue_remove now here c t cleared else marked) flag_kept

  woken-elim :
      (P : Kernel → Type 0)
      → ((k.task_table t).timer ≡ true → P (timer_queue_remove now here c t cleared))
      → ((k.task_table t).timer ≡ false → P marked)
      → P woken
  woken-elim P p q =
      subst P (sym woken-eq)
        (if-elim P (k.task_table t).timer (timer_queue_remove now here c t cleared) marked p q)

  woken-IsValid : IsValid woken qs without
  woken-IsValid =
      woken-elim (λ k'. IsValid k' qs without)
        (λ f. Retimed-IsValid v (
          cleared-Retimed (timer_queue_remove-Unqueued now here c t cleared)
            (ground (arith, v.flagged t))))
        (λ f.
          subst (λ (us : ℕ → List ℕ). IsValid marked qs us)
            (sym (without_absent (ground (arith, v.timed c t))))
            (set_task-IsValid v t (record (k.task_table t) { status = Status.ready })
              (λ c' i. ground (arith, v.queued c' i t)) (λ c'. ground (arith, v.timed c' t)) f
              (λ r. ground arith)))

  -- The fields of the woken task that its ready queue depends on.
  abbrev IsReadyAs : Task → Type 0
  IsReadyAs new =
      (new.status ≡ Status.ready)
      × (new.prio ≡ (k.task_table t).prio)
      × (new.last_core ≡ (k.task_table t).last_core)

  woken_task : IsReadyAs (woken.task_table t)
  woken_task =
      woken-elim (λ k'. IsReadyAs (k'.task_table t))
        (λ f.
          rw ((timer_queue_remove-Unqueued now here c t cleared).tasks, ==-refl t)
            (refl, refl, refl))
        (λ f. rw (==-refl t) (refl, refl, refl))

count_up-IsSame : (c : ℕ) (k : Kernel) → IsSame k (count_up c k)
count_up-IsSame c k = record {
  links = refl;
  tasks = λ a. refl;
  queue = λ c' j. ground arith;
  bits = λ c' j. ground arith;
  timers = λ c'. ground arith;
}

module _ {k : Kernel} {qs : ℕ → ℕ → List ℕ} {ts : ℕ → List ℕ} (v : IsValid k qs ts)
    (now here t i : ℕ) (asleep : (k.task_table t).status ≡ Status.blocked)
    (has_prio : (k.task_table t).prio ≡ suc i) (in_range : i < 31) where
  abbrev core : ℕ
  core = (k.task_table t).last_core

  abbrev awake : Kernel
  awake = woken v now here core t asleep refl

  awake-IsQueued : IsQueued (awake.task_table t) core i
  awake-IsQueued =
      let (r, p, q) = woken_task v now here core t asleep refl in
      record { is_ready = r; has_prio = p ∙ has_prio; in_range = in_range; on_core = q }

  awake-eq : wakeup_task now here t k ≡ (true, count_up core (readyqueues_push_back core t awake))
  unfolding wakeup_task
  awake-eq =
      ap (λ b. if b then (true, count_up core (readyqueues_push_back core t awake)) else (false, k))
        (ap is_blocked asleep)

  -- In a valid state, waking a blocked task of priority `i + 1`, at most 31, succeeds: the task
  -- leaves the timer queue of its core and goes to the end of the ready queue of its priority. The
  -- invariant is kept.
  pub wakeup_task-IsValid :
      let (done, k') = wakeup_task now here t k in
      (done ≡ true)
      × IsValid k' (requeue qs core i (qs core i ++ t ∷ [])) (retime ts core (erase t (ts core)))
  wakeup_task-IsValid =
      subst
        (λ (r : Bool × Kernel).
          (r.0 ≡ true)
          × IsValid r.1 (requeue qs core i (qs core i ++ t ∷ []))
              (retime ts core (erase t (ts core))))
        (sym awake-eq)
        (
          refl,
          same-IsValid
              (push_back-IsValid (woken-IsValid v now here core t asleep refl) core i t
                awake-IsQueued (ground (arith, v.queued core i t)))
              (count_up-IsSame core (readyqueues_push_back core t awake)),
        )
