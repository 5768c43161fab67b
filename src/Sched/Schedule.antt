-- ===== src/Sched/Schedule.antt =====
-- What `scheduler` does from a valid state.
use libhermit.Base.{
  ℕ, zero, suc, ◌<◌, ◌≡◌, refl, Bool, true, false, Option, none, some, List, [], ◌∷◌, arith, inl,
  inr, ltb, ==-refl, ◌&&◌, ◌||◌, if◌then◌else◌, Bool-cases, ==_iff, ◌∙◌,
}
use libhermit.Sched.Defs.{Status, Kernel, is_running, is_finished, msb, set_task}
use libhermit.Sched.Switch.{returned, set_old, pick_next, schedule_from, scheduler, get_task_out}
use libhermit.Sched.Inv.{IsValid, requeue, same-IsValid, set_task-IsValid}
use libhermit.Sched.Msb.{msb-IsHighest}
use libhermit.Sched.Pick.{pick_next-Started}

-- `t` heads the highest queue of core `c` that holds a task, which is queue `i`.
pub record IsTop (qs : ℕ → ℕ → List ℕ) (c i t : ℕ) (rest : List ℕ) : Type 0 where
  pub head : qs c i ≡ t ∷ rest
  pub above : (j : ℕ) → i < j → qs c j ≡ []

pub is_running_eq : {s : Status} → is_running s ≡ true → s ≡ Status.running
is_running_eq {s} h = ground arith

-- The kernel after `scheduler` has noted the core and the old task.
abbrev pub noted : ℕ → Kernel → Kernel
noted c k =
    let curr = k.current_task c in
    let t = k.task_table curr in
    set_old c (if is_finished t.status then some curr else none)
      (set_task k curr (record t { last_core = c }))

-- The running task is set aside.
abbrev pub aside : ℕ → Kernel → Kernel
aside c k =
    let curr = k.current_task c in
    set_old c (some curr) (set_task k curr (record (k.task_table curr) { status = Status.ready }))

module _ {k : Kernel} {qs : ℕ → ℕ → List ℕ} {ts : ℕ → List ℕ} (v : IsValid k qs ts) (c : ℕ) where
  pub msb_top :
      (i t : ℕ) (rest : List ℕ) → IsTop qs c i t rest → msb (k.readyqueues c).prio_bitmap ≡ suc i
  msb_top i t rest top = msb-IsHighest (k.readyqueues c).prio_bitmap (suc i) (record {
    below = ground (arith, (v.queued c i t (rw (top.head, ==-refl t))).in_range);
    here = rw (v.bits c i, top.head);
    above = clear;
  })
    where
      clear : (q : ℕ) → suc i < q → q < 32 → (k.readyqueues c).prio_bitmap q ≡ false
      clear zero g l = absurd (omega arith)
      clear (suc j) g l = rw (v.bits c j, top.above j (omega arith))

  pub noted-IsValid : (k.task_table (k.current_task c)).last_core ≡ c → IsValid (noted c k) qs ts
  noted-IsValid home = same-IsValid v (record {
    links = refl;
    tasks = λ a. ground (arith, ==_iff (k.current_task c) a);
    queue = λ c' i. ground arith;
    bits = λ c' i. ground arith;
    timers = λ c'. ground arith;
  })

  pub aside-IsValid :
      (k.task_table (k.current_task c)).status ≡ Status.running → IsValid (aside c k) qs ts
  aside-IsValid run =
      same-IsValid
        (set_task-IsValid v curr (record (k.task_table curr) { status = Status.ready })
          (λ c' i. ground (arith, v.queued c' i curr)) (λ c'. ground (arith, v.timed c' curr))
          (ground (arith, v.flagged curr, v.timed (k.task_table curr).last_core curr))
          (λ r. ground arith))
        (record {
          links = refl;
          tasks = λ a. refl;
          queue = λ c' i. ground arith;
          bits = λ c' i. ground arith;
          timers = λ c'. ground arith;
        })
    where
      curr : ℕ
      curr = k.current_task c

-- What a switch to `t`, the head of queue `i` of core `c`, leaves behind. The task that ran, if it
-- can run on or is to be cleaned up, is left to `finish_task_switch`.
pub record Switched (k k' : Kernel) (qs : ℕ → ℕ → List ℕ) (ts : ℕ → List ℕ) (c i t : ℕ)
    (rest : List ℕ) : Type 0 where
  pub valid : IsValid k' (requeue qs c i rest) ts
  pub current : k'.current_task c ≡ t
  pub running : (k'.task_table t).status ≡ Status.running
  pub home : (k'.task_table t).last_core ≡ c
  pub old : (k'.readyqueues c).old_task ≡ (
      if is_running (k.task_table (k.current_task c)).status
        || is_finished (k.task_table (k.current_task c)).status
      then some (k.current_task c)
      else none)

-- The current task keeps the core against a queue of priority `p`.
abbrev pub keeps_core : Kernel → ℕ → ℕ → Bool
keeps_core k c p = let t = k.task_table (k.current_task c) in ltb p t.prio && is_running t.status

-- The steps of `schedule_from`, for the current task of the core.
module _ (c p : ℕ) (k : Kernel) (e : msb (k.readyqueues c).prio_bitmap ≡ p) (orig : ℕ) where
  pub from_running :
      p < 32
      → is_running (k.task_table (k.current_task c)).status ≡ true
      → ltb p (k.task_table (k.current_task c)).prio ≡ false
      → schedule_from c orig (k.current_task c) k ≡ pick_next c orig p (aside c k)
  unfolding schedule_from
  from_running l r n = rw e (ground arith)

  pub from_other :
      p < 32
      → is_running (k.task_table (k.current_task c)).status ≡ false
      → schedule_from c orig (k.current_task c) k ≡ pick_next c orig p k
  unfolding schedule_from
  from_other l r = rw e (ground arith)

  pub from_keeps :
      p < 32
      → is_running (k.task_table (k.current_task c)).status ≡ true
      → ltb p (k.task_table (k.current_task c)).prio ≡ true
      → schedule_from c orig (k.current_task c) k ≡ get_task_out orig (k.current_task c) k
  unfolding schedule_from
  from_keeps l r n = rw e (ground arith)

pub scheduler_up :
    (c : ℕ) (k : Kernel)
    → k.go_down ≡ false
    → scheduler c k ≡ schedule_from c (k.current_task c) (k.current_task c) (noted c k)
unfolding scheduler
scheduler_up c k up = rw up

module _ {k : Kernel} {qs : ℕ → ℕ → List ℕ} {ts : ℕ → List ℕ} (v : IsValid k qs ts) (c i t : ℕ)
    (rest : List ℕ) (top : IsTop qs c i t rest) (up : k.go_down ≡ false)
    (home : (k.task_table (k.current_task c)).last_core ≡ c) where
  curr : ℕ
  curr = k.current_task c

  msb-noted : msb ((noted c k).readyqueues c).prio_bitmap ≡ suc i
  msb-noted = rw (==-refl c) (msb_top v c i t rest top)

  top_range : suc i < 32
  top_range = ground (arith, (v.queued c i t (rw (top.head, ==-refl t))).in_range)

  noted_task :
      ((noted c k).task_table (k.current_task c)).status ≡ (k.task_table (k.current_task c)).status
  noted_task = rw (==-refl (k.current_task c))

  pick_running :
      (k.task_table (k.current_task c)).status ≡ Status.running
      → (r : Option ℕ) × (k' : Kernel) × (pick_next c
            (k.current_task c)
            (suc i)
            (aside c (noted c k))
          ≡ returned r k')
        × Switched k k' qs ts c i t rest
  pick_running run =
      let valid = aside-IsValid (noted-IsValid v c home) c (noted_task ∙ run) in
      let (r, k', e, s) = pick_next-Started valid c i t (k.current_task c) rest top.head in
      (
        r,
        k',
        e,
        record {
          valid = s.valid;
          current = s.current;
          running = s.running;
          home = s.home;
          old = s.old ∙ ground arith;
        },
      )

  pick_other :
      is_running (k.task_table (k.current_task c)).status ≡ false
      → (r : Option ℕ) × (k' : Kernel) × (pick_next c (k.current_task c) (suc i) (noted c k)
          ≡ returned r k')
        × Switched k k' qs ts c i t rest
  pick_other stop =
      let (r, k', e, s) =
        pick_next-Started (noted-IsValid v c home) c i t (k.current_task c) rest top.head in
      (
        r,
        k',
        e,
        record {
          valid = s.valid;
          current = s.current;
          running = s.running;
          home = s.home;
          old = s.old ∙ ground arith;
        },
      )

  -- In a valid state without a shutdown request, whose current task is noted to be on this core,
  -- let queue `i` be the highest ready queue of the core that holds a task, and `t` its head.
  -- Unless the running task has a higher priority, `scheduler` makes `t` the running task, notes
  -- the task that ran or has finished as the old one, and keeps the invariant with `t` off its
  -- queue.
  pub scheduler-Switched :
      keeps_core k c (suc i) ≡ false
      → (r : Option ℕ) × (k' : Kernel) × (scheduler c k ≡ returned r k')
        × Switched k k' qs ts c i t rest
  scheduler-Switched yields =
      elim (Bool-cases (is_running (k.task_table (k.current_task c)).status)) [
        | inl run ↦
            let (r, k', e, s) = pick_running (is_running_eq run) in
            (
              r,
              k',
              scheduler_up c k up
                  ∙ from_running c (suc i) (noted c k) msb-noted (k.current_task c) top_range
                      (rw (noted_task, run)) (ground arith)
                  ∙ e,
              s,
            )
        | inr stop ↦
            let (r, k', e, s) = pick_other stop in
            (
              r,
              k',
              scheduler_up c k up
                  ∙ from_other c (suc i) (noted c k) msb-noted (k.current_task c) top_range
                      (rw (noted_task, stop))
                  ∙ e,
              s,
            )
      ]

  -- In the same state, a running task of higher priority than queue `i` goes on, and no queue
  -- changes.
  pub scheduler-keeps :
      keeps_core k c (suc i) ≡ true
      → (k' : Kernel) × (scheduler c k ≡ returned none k')
        × IsValid k' qs ts
        × (k'.current_task c ≡ k.current_task c)
  scheduler-keeps stays = (
    noted c k,
    scheduler_up c k up
        ∙ from_keeps c (suc i) (noted c k) msb-noted (k.current_task c) top_range (ground arith)
            (ground arith)
        ∙ rw (==-refl (k.current_task c)),
    noted-IsValid v c home,
    refl,
  )
