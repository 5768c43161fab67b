-- ===== src/Sched/Alarm.antt =====
-- `set_timer` blocks the current task and puts it into the timer queue, in order.
use libhermit.Base.{
  ℕ, suc, ◌<◌, ◌≡◌, refl, Bool, true, false, some, List, arith, ◌==◌, ==-refl, if◌then◌else◌, mem,
  length, update, ==_iff, subst, sym, ◌∙◌, ◌≢◌, fun_ext,
}
use libhermit.TaskList.{Links, TaskList}
use libhermit.Sched.Defs.{Status, Task, Kernel, set_task}
use libhermit.Sched.Timer.{timer_insert, timer_queue_push, update_timer}
use libhermit.Sched.Ops.{block_task, set_timer}
use libhermit.Sched.Inv.{
  IsTimed, IsValid, retime, Retimed, Retimed-IsValid, IsOrdered, IsOrdered-same,
}
use libhermit.Sched.Insert.{
  insert_by, Inserted, timer_insert-Inserted, insert_by-mem, insert_by-IsOrdered,
}
use libhermit.Sched.Block.{block_task-IsValid, task_table-block}

blocked≢running : Status.blocked ≢ Status.running
blocked≢running e = ground arith

module _ {m : Kernel} {qs : ℕ → ℕ → List ℕ} {ts : ℕ → List ℕ} (v : IsValid m qs ts)
    (fuel now here c t deadline : ℕ) (stopped : (m.task_table t).status ≡ Status.blocked)
    (on_core : (m.task_table t).last_core ≡ c) (out : mem t (ts c) ≡ false)
    (enough : length (ts c) < fuel) where
  abbrev armed : Kernel
  armed = set_task m t (record (m.task_table t) { timer = true; timeout = deadline })

  abbrev key : ℕ → ℕ
  key a = (armed.task_table a).timeout

  inserted :
      (r : TaskList × Links × Bool) × (timer_insert fuel key (m.readyqueues c).timers t m.links
        ≡ some r)
      × Inserted key t m.links (ts c) r
  inserted =
      timer_insert-Inserted key t fuel m.links (m.readyqueues c).timers (ts c) (v.timers c) out
        enough

  abbrev queue_after : TaskList × Links × Bool → Kernel
  queue_after (list, l, head) =
      record (if head then update_timer now here (some t) armed else armed) {
        links = l;
        readyqueues = update m.readyqueues c (record (m.readyqueues c) { timers = list });
      }

  key_same : (a : ℕ) → mem a (ts c) ≡ true → key a ≡ (m.task_table a).timeout
  key_same a n = ground (arith, ==_iff t a)

  after_tasks : (r : TaskList × Links × Bool) → (queue_after r).task_table ≡ armed.task_table
  unfolding update_timer
  after_tasks (list, l, true) = refl
  after_tasks (list, l, false) = refl

  after-Retimed :
      (r : TaskList × Links × Bool)
      → Inserted key t m.links (ts c) r
      → Retimed m (queue_after r) qs ts c t (insert_by key t (ts c))
  after-Retimed r w = record {
    list = rw (==-refl c) w.list;
    other_timers = λ c' n. rw n;
    same_queues = λ c' i. ground arith;
    same_bits = λ c' i. ground arith;
    same_tasks = λ a n. rw (after_tasks r, n);
    same_links = w.same;
    members = λ a n. insert_by-mem key t a (ts c) ∙ ground arith;
    unqueued = λ c' i. ground (arith, v.queued c' i t);
    elsewhere = λ c' n. ground (arith, v.timed c' t, ==_iff c c');
    now_timed = λ n.
        subst (λ (tab : ℕ → Task). IsTimed (tab t) c) (sym (after_tasks r))
          (rw (==-refl t) (record { is_blocked = stopped; has_flag = refl; on_core = on_core }));
    now_flagged = λ n. absurd (ground (arith, insert_by-mem key t t (ts c), ==-refl t));
    now_ordered =
        subst (λ (tab : ℕ → Task). IsOrdered (λ a. (tab a).timeout) (insert_by key t (ts c)))
          (sym (after_tasks r))
          (insert_by-IsOrdered key t (ts c)
            (IsOrdered-same (λ a. (m.task_table a).timeout) key (ts c) key_same (v.ordered c)));
    idle_links = λ e. blocked≢running (sym still ∙ e);
  }
    where
      still : ((queue_after r).task_table t).status ≡ Status.blocked
      still =
          subst (λ (tab : ℕ → Task). (tab t).status ≡ Status.blocked) (sym (after_tasks r))
            (rw (==-refl t) stopped)

  push-IsValid :
      (k' : Kernel) × (timer_queue_push fuel now here c t armed ≡ some k')
      × IsValid k' qs (retime ts c (insert_by key t (ts c)))
  unfolding timer_queue_push
  push-IsValid =
      let (r, e, w) = inserted in
      (queue_after r, ground (arith, e), Retimed-IsValid v (after-Retimed r w))

module _ {k : Kernel} {qs : ℕ → ℕ → List ℕ} {ts : ℕ → List ℕ} (v : IsValid k qs ts)
    (fuel now here deadline i : ℕ)
    (awake : (k.task_table (k.current_task here)).status ≡ Status.running)
    (home : (k.task_table (k.current_task here)).last_core ≡ here)
    (has_prio : (k.task_table (k.current_task here)).prio ≡ suc i)
    (enough : length (ts here) < fuel) where
  abbrev id : ℕ
  id = k.current_task here

  abbrev timeouts : ℕ → ℕ
  timeouts a = if id == a then deadline else (k.task_table a).timeout

  -- The kernel when the task is blocked.
  abbrev blocked : Kernel
  blocked = (block_task id k).1

  blocked_core : (blocked.task_table id).last_core ≡ here
  blocked_core = rw (task_table-block v id i awake has_prio, ==-refl id) home

  same_timeouts :
      (a : ℕ)
      → (update blocked.task_table id
          (record (blocked.task_table id) { timer = true; timeout = deadline })
          a).timeout
        ≡ timeouts a
  same_timeouts a = rw (task_table-block v id i awake has_prio) (ground arith)

  -- In a valid state, with more fuel than the core has timers, and a current task that runs on this
  -- core with priority `i + 1`: `set_timer` succeeds, the task is no longer among the ready ones,
  -- and it stands in the timer queue of its core, behind all tasks that time out no later than its
  -- deadline. The invariant, and with it the order of the timers, is kept.
  pub set_timer-IsValid :
      (k' : Kernel) × (set_timer fuel now here deadline k ≡ some (true, k'))
      × IsValid k' qs (retime ts here (insert_by timeouts id (ts here)))
  unfolding set_timer
  set_timer-IsValid =
      let (done, valid, stopped) = block_task-IsValid v id i awake has_prio in
      let (k', e, w) =
        push-IsValid valid fuel now here here id deadline stopped blocked_core
          (ground (arith, v.timed here id)) enough in
      (
        k',
        ground (arith, e),
        subst (λ (f : ℕ → ℕ). IsValid k' qs (retime ts here (insert_by f id (ts here))))
            (fun_ext same_timeouts) w,
      )
