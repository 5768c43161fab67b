-- ===== src/Sched/Inv/Retask.antt =====
-- Changes that no list notices keep the invariant.
use libhermit.Base.{ℕ, suc, zero, ◌≡◌, false, none, List, arith, mem, update, ==_iff}
use libhermit.Sched.Defs.{Status, Task, Kernel, set_task}
use libhermit.Sched.Inv.Defs.{IsValid}
use libhermit.Sched.Inv.Frame.{IsOrdered-same}

-- `k'` has the lists of `k`, and the same task table entry by entry.
pub record IsSame (k k' : Kernel) : Type 0 where
  pub links : k'.links ≡ k.links
  pub tasks : (a : ℕ) → k'.task_table a ≡ k.task_table a
  pub queue : (c i : ℕ) → (k'.readyqueues c).queue i ≡ (k.readyqueues c).queue i
  pub bits : (c i : ℕ) → (k'.readyqueues c).prio_bitmap i ≡ (k.readyqueues c).prio_bitmap i
  pub timers : (c : ℕ) → (k'.readyqueues c).timers ≡ (k.readyqueues c).timers

module _ {k : Kernel} {qs : ℕ → ℕ → List ℕ} {ts : ℕ → List ℕ} (v : IsValid k qs ts) where
  pub same-IsValid : {k' : Kernel} → IsSame k k' → IsValid k' qs ts
  same-IsValid {k'} s = record {
    lists = λ c i. rw (s.links, s.queue c i) (v.lists c i);
    bits = λ c i. rw (s.bits c (suc i)) (v.bits c i);
    no_idle_bit = λ c. rw (s.bits c zero) (v.no_idle_bit c);
    queued = λ c i a m. rw (s.tasks a) (v.queued c i a m);
    timers = λ c. rw (s.links, s.timers c) (v.timers c);
    timed = λ c a m. rw (s.tasks a) (v.timed c a m);
    ordered = λ c.
        IsOrdered-same (λ a. (k.task_table a).timeout) (λ a. (k'.task_table a).timeout) (ts c)
          (λ a m. ground (arith, s.tasks a)) (v.ordered c);
    flagged = λ a f. ground (arith, s.tasks a, v.flagged a);
    alone = λ a r. ground (arith, s.tasks a, v.alone a, s.links);
  }

  -- A task in no list may change, as long as it is not flagged, and does not come to run with
  -- links.
  pub set_task-IsValid :
      (t : ℕ) (new : Task)
      → ((c i : ℕ) → mem t (qs c i) ≡ false)
      → ((c : ℕ) → mem t (ts c) ≡ false)
      → new.timer ≡ false
      → (new.status ≡ Status.running → (k.links.next t ≡ none) × (k.links.prev t ≡ none))
      → IsValid (set_task k t new) qs ts
  set_task-IsValid t new outq outt f r = record {
    lists = v.lists;
    bits = v.bits;
    no_idle_bit = v.no_idle_bit;
    queued = λ c i a m. ground (arith, v.queued c i a, outq c i, ==_iff t a);
    timers = v.timers;
    timed = λ c a m. ground (arith, v.timed c a, outt c, ==_iff t a);
    ordered = λ c.
        IsOrdered-same (λ a. (k.task_table a).timeout) (λ a. (update k.task_table t new a).timeout)
          (ts c) (λ a m. ground (arith, outt c, ==_iff t a)) (v.ordered c);
    flagged = λ a g. ground (arith, v.flagged a);
    alone = λ a g. ground (arith, v.alone a, r, ==_iff t a);
  }
