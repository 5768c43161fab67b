-- ===== src/Sched/Pick.antt =====
-- `pick_next`, the part of `scheduler` that starts the head of the highest ready queue.
use libhermit.Base.{
  ℕ, suc, ◌-◌, ◌≡◌, refl, false, Option, none, some, List, ◌∷◌, arith, ◌==◌, ==-refl, if◌then◌else◌,
  ptr_eq, mem, update,
}
use libhermit.TaskList.{Links, TaskList, task_list_pop_front, pop_front-cons, Popped, IsTaskList}
use libhermit.Sched.Defs.{Status, Kernel}
use libhermit.Sched.Switch.{returned, make_current, pick_next}
use libhermit.Sched.Inv.{IsQueued, IsValid, requeue, Requeued, Requeued-IsValid}
use libhermit.Sched.Queue.{elsewhere_lem, first-has_any}

-- What the switch to `t`, the head of queue `i` of core `c`, leaves behind.
pub record Started (k k' : Kernel) (qs : ℕ → ℕ → List ℕ) (ts : ℕ → List ℕ) (c i t : ℕ)
    (rest : List ℕ) : Type 0 where
  pub valid : IsValid k' (requeue qs c i rest) ts
  pub current : k'.current_task c ≡ t
  pub running : (k'.task_table t).status ≡ Status.running
  pub home : (k'.task_table t).last_core ≡ c
  pub others : (a : ℕ) → (t == a) ≡ false → k'.task_table a ≡ k.task_table a
  pub old : (k'.readyqueues c).old_task ≡ (k.readyqueues c).old_task

module _ {k : Kernel} {qs : ℕ → ℕ → List ℕ} {ts : ℕ → List ℕ} (v : IsValid k qs ts) (c i t orig : ℕ)
    (rest : List ℕ) (e : qs c i ≡ t ∷ rest) where
  head-IsQueued : IsQueued (k.task_table t) c i
  head-IsQueued = v.queued c i t (rw (e, ==-refl t))

  head_list : IsTaskList k.links ((k.readyqueues c).queue i) (t ∷ rest)
  head_list = rw e at (v.lists c i)

  rest_out : mem t rest ≡ false
  rest_out = head_list.distinct.0

  started : TaskList → Links → Kernel
  started list l =
      let r = k.readyqueues c in
      make_current c t (record k {
        links = l;
        task_table = update k.task_table t (record (k.task_table t) { status = Status.running });
        readyqueues = update k.readyqueues c (record r {
          queue = update r.queue (suc i - 1) list;
          prio_bitmap =
              if ptr_eq list.first none then update r.prio_bitmap (suc i) false else r.prio_bitmap;
        });
      })

  idx : suc i - 1 ≡ i
  idx = omega arith

  started-Requeued :
      (list : TaskList) (l : Links)
      → Popped k.links t rest (some t, list, l)
      → Requeued k (started list l) qs ts c i t rest
  unfolding started
  started-Requeued list l p = record {
    list = rw (idx, ==-refl c, ==-refl i) p.1;
    other_lists = λ c' i' n. rw idx (ground arith);
    bit = ground (arith, first-has_any l list rest p.1, v.bits c i);
    other_bits = λ c' i' n. ground arith;
    same_timers = λ c'. ground arith;
    same_tasks = λ a n. rw n refl;
    same_links = λ a m. p.4 a (ground arith);
    members = λ a n m. rw e (ground arith);
    elsewhere = elsewhere_lem v c i t head-IsQueued.has_prio head-IsQueued.on_core;
    untimed = λ c'. ground (arith, v.timed c' t, head-IsQueued);
    now_queued = λ m. absurd (ground (arith, rest_out));
    unflagged = ground (arith, v.flagged t, v.timed (k.task_table t).last_core t, head-IsQueued);
    now_alone = λ r. (p.2, p.3);
  }

  run-Started :
      (r : Option ℕ × TaskList × Links)
      → task_list_pop_front ((k.readyqueues c).queue i) k.links ≡ some r
      → Popped k.links t rest r
      → (r : Option ℕ) × (k' : Kernel) × (pick_next c orig (suc i) k ≡ returned r k')
        × Started k k' qs ts c i t rest
  unfolding pick_next started
  run-Started (out, list, l) popped p = (
    (if orig == t then none else some orig),
    started list l,
    ground (arith, popped, p.0, head-IsQueued, idx),
    record {
      valid = Requeued-IsValid v (started-Requeued list l (refl, p.1, p.2, p.3, p.4));
      current = rw (==-refl c);
      running = rw (==-refl t);
      home = rw (==-refl t) head-IsQueued.on_core;
      others = λ a n. rw n refl;
      old = ground arith;
    },
  )

  -- If queue `i` of core `c` holds `t ∷ rest`, then `t` becomes the running task of the core,
  -- `rest` stays queued, and the invariant holds.
  pub pick_next-Started :
      (r : Option ℕ) × (k' : Kernel) × (pick_next c orig (suc i) k ≡ returned r k')
      × Started k k' qs ts c i t rest
  pick_next-Started =
      let (r, popped, p) = pop_front-cons k.links ((k.readyqueues c).queue i) t rest head_list in
      run-Started r popped p
