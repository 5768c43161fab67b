-- ===== src/Sched/Queue.antt =====
-- `readyqueues_push_back` and `readyqueues_remove` keep the invariant.
use libhermit.Base.{
  Option, none, ptr_eq, not, ℕ, suc, ◌-◌, ◌≡◌, refl, true, false, List, [], ◌∷◌, ◌++◌, arith, ◌==◌,
  ==-refl, ◌&&◌, mem, mem-append,
}
use libhermit.TaskList.{Links, TaskList, Chain, IsTaskList, push_back-append, push_back-Agree}
use libhermit.Sched.Defs.{Kernel, readyqueues_push_back}
use libhermit.Sched.Inv.{has_any, IsQueued, IsValid, requeue, Requeued, Requeued-IsValid}

has_any-snoc : (xs : List ℕ) (t : ℕ) → has_any (xs ++ t ∷ []) ≡ true
has_any-snoc [] t = refl
has_any-snoc (x ∷ xs) t = refl

-- The head pointer is NULL when the list is empty, and only then.
first_lem :
    (l : Links) (f e : Option ℕ) (xs : List ℕ)
    → Chain l none f xs e
    → ptr_eq f none ≡ not (has_any xs)
first_lem l f e [] c = ground arith
first_lem l f e (x ∷ xs) c = ground arith

pub first-has_any :
    (l : Links) (list : TaskList) (xs : List ℕ)
    → IsTaskList l list xs
    → ptr_eq list.first none ≡ not (has_any xs)
first-has_any l list xs v = first_lem l list.first list.last xs v.chain

-- Facts that the proofs about one queue share.
pub elsewhere_lem :
    {k : Kernel} {qs : ℕ → ℕ → List ℕ} {ts : ℕ → List ℕ} (v : IsValid k qs ts) (c i t : ℕ)
    → (k.task_table t).prio ≡ suc i
    → (k.task_table t).last_core ≡ c
    → (c' i' : ℕ) → (c == c' && i == i') ≡ false
    → mem t (qs c' i') ≡ false
elsewhere_lem v c i t p q c' i' n = ground (arith, v.queued c' i' t)

module _ {k : Kernel} {qs : ℕ → ℕ → List ℕ} {ts : ℕ → List ℕ} (v : IsValid k qs ts) (c i t : ℕ)
    (q : IsQueued (k.task_table t) c i) (out : mem t (qs c i) ≡ false) where
  idx : (k.task_table t).prio - 1 ≡ i
  idx = ground arith

  push_back-Requeued : Requeued k (readyqueues_push_back c t k) qs ts c i t (qs c i ++ t ∷ [])
  unfolding readyqueues_push_back
  push_back-Requeued = record {
    list =
        rw (idx, ==-refl c, ==-refl i)
          (push_back-append k.links ((k.readyqueues c).queue i) (qs c i) t (v.lists c i) out);
    other_lists = λ c' i' n. rw idx (ground arith);
    bit = ground (arith, has_any-snoc (qs c i) t);
    other_bits = λ c' i' n. ground arith;
    same_timers = λ c'. ground arith;
    same_tasks = λ a n. refl;
    same_links = λ a m.
        rw idx (push_back-Agree k.links ((k.readyqueues c).queue i) (qs c i) t (v.lists c i) a m);
    members = λ a n m. ground (arith, mem-append a (qs c i) (t ∷ []));
    elsewhere = elsewhere_lem v c i t q.has_prio q.on_core;
    untimed = λ c'. ground (arith, v.timed c' t);
    now_queued = λ m. q;
    unflagged = ground (arith, v.flagged t, v.timed (k.task_table t).last_core t);
    now_alone = λ r. ground arith;
  }

  -- Pushing a ready task that is not queued appends it to its queue, and keeps the invariant.
  pub push_back-IsValid :
      IsValid (readyqueues_push_back c t k) (requeue qs c i (qs c i ++ t ∷ [])) ts
  push_back-IsValid = Requeued-IsValid v push_back-Requeued
