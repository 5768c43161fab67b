-- ===== src/Sched/Inv/Frame.antt =====
-- What a change of one ready queue, or of one timer queue, has to show to keep the invariant.
use libhermit.Base.{
  ℕ, suc, zero, ◌≡◌, true, false, inl, inr, none, List, [], ◌∷◌, arith, ◌==◌, ◌&&◌, mem, Bool-cases,
  subst₂, ==_iff,
}
use libhermit.TaskList.{IsTaskList, IsTaskList-frame}
use libhermit.Sched.Defs.{Status, Kernel}
use libhermit.Sched.Inv.Defs.{has_any, IsQueued, IsOrdered, IsValid, requeue}

-- From `k` to `k'` only the task `t` changes, and the queue `i` of core `c`, which then holds `xs`.
pub record Requeued (k k' : Kernel) (qs : ℕ → ℕ → List ℕ) (ts : ℕ → List ℕ) (c i t : ℕ)
    (xs : List ℕ) : Type 0 where
  pub list : IsTaskList k'.links ((k'.readyqueues c).queue i) xs
  pub other_lists :
      (c' i' : ℕ)
      → (c == c' && i == i') ≡ false
      → (k'.readyqueues c').queue i' ≡ (k.readyqueues c').queue i'
  pub bit : (k'.readyqueues c).prio_bitmap (suc i) ≡ has_any xs
  pub other_bits :
      (c' i' : ℕ)
      → (c == c' && suc i == i') ≡ false
      → (k'.readyqueues c').prio_bitmap i' ≡ (k.readyqueues c').prio_bitmap i'
  pub same_timers : (c' : ℕ) → (k'.readyqueues c').timers ≡ (k.readyqueues c').timers
  pub same_tasks : (a : ℕ) → (t == a) ≡ false → k'.task_table a ≡ k.task_table a
  pub same_links :
      (a : ℕ)
      → mem a (t ∷ qs c i) ≡ false
      → (k'.links.next a ≡ k.links.next a) × (k'.links.prev a ≡ k.links.prev a)
  pub members : (a : ℕ) → (t == a) ≡ false → mem a xs ≡ true → mem a (qs c i) ≡ true
  pub elsewhere : (c' i' : ℕ) → (c == c' && i == i') ≡ false → mem t (qs c' i') ≡ false
  pub untimed : (c' : ℕ) → mem t (ts c') ≡ false
  pub now_queued : mem t xs ≡ true → IsQueued (k'.task_table t) c i
  pub unflagged : (k'.task_table t).timer ≡ false
  pub now_alone :
      (k'.task_table t).status ≡ Status.running
      → (k'.links.next t ≡ none) × (k'.links.prev t ≡ none)

pub IsOrdered-same :
    (f g : ℕ → ℕ) (xs : List ℕ)
    → ((a : ℕ) → mem a xs ≡ true → g a ≡ f a)
    → IsOrdered f xs
    → IsOrdered g xs
IsOrdered-same f g [] h o = o
IsOrdered-same f g (x ∷ []) h o = o
IsOrdered-same f g (x ∷ y ∷ ys) h o =
    ground (arith, h x, h y, IsOrdered-same f g (y ∷ ys) (λ a m. h a (ground arith)))

same_key : (c c' i i' : ℕ) → (c == c' && i == i') ≡ true → (c ≡ c') × (i ≡ i')
same_key c c' i i' e = ground arith

module _ {k k' : Kernel} {qs : ℕ → ℕ → List ℕ} {ts : ℕ → List ℕ} {c i t : ℕ} {xs : List ℕ}
    (v : IsValid k qs ts) (w : Requeued k k' qs ts c i t xs) where
  -- No task is in two queues.
  once :
      (c' i' a : ℕ)
      → (c == c' && i == i') ≡ false
      → mem a (qs c' i') ≡ true
      → mem a (qs c i) ≡ false
  once c' i' a n m = ground (arith, v.queued c' i' a, v.queued c i a)

  queued_apart :
      (c' i' a : ℕ)
      → (c == c' && i == i') ≡ false
      → mem a (qs c' i') ≡ true
      → mem a (t ∷ qs c i) ≡ false
  queued_apart c' i' a n m = ground (arith, once c' i' a n m, w.elsewhere c' i', ==_iff t a)

  timed_apart : (c' a : ℕ) → mem a (ts c') ≡ true → mem a (t ∷ qs c i) ≡ false
  timed_apart c' a m = ground (arith, v.timed c' a, v.queued c i a, w.untimed c')

  alone_apart :
      (a : ℕ)
      → (k.task_table a).status ≡ Status.running
      → (t == a) ≡ false
      → mem a (t ∷ qs c i) ≡ false
  alone_apart a r n = ground (arith, v.queued c i a)

  lists_lem :
      (c' i' : ℕ) → IsTaskList k'.links ((k'.readyqueues c').queue i') (requeue qs c i xs c' i')
  lists_lem c' i' = elim (Bool-cases (c == c' && i == i')) [
    | inl e ↦ rw e (
        subst₂ (λ u j. IsTaskList k'.links ((k'.readyqueues u).queue j) xs) (same_key c c' i i' e).0
          (same_key c c' i i' e).1 w.list)
    | inr n ↦
        rw (n, w.other_lists c' i' n)
          (IsTaskList-frame k.links k'.links ((k.readyqueues c').queue i') (qs c' i')
            (λ a m. w.same_links a (queued_apart c' i' a n m)) (v.lists c' i'))
  ]

  bits_lem :
      (c' i' : ℕ) → (k'.readyqueues c').prio_bitmap (suc i') ≡ has_any (requeue qs c i xs c' i')
  bits_lem c' i' = elim (Bool-cases (c == c' && i == i')) [
    | inl e ↦ rw e (
        subst₂ (λ u j. (k'.readyqueues u).prio_bitmap (suc j) ≡ has_any xs) (same_key c c' i i' e).0
          (same_key c c' i i' e).1 w.bit)
    | inr n ↦ rw (n, w.other_bits c' (suc i') (ground arith)) (v.bits c' i')
  ]

  queued_lem :
      (c' i' a : ℕ) → mem a (requeue qs c i xs c' i') ≡ true → IsQueued (k'.task_table a) c' i'
  queued_lem c' i' a m = elim (Bool-cases (t == a)) [
    | inl e ↦ ground (arith, w.now_queued, w.elsewhere c' i')
    | inr o ↦ ground (arith, w.same_tasks a, v.queued c' i' a, v.queued c i a, w.members a)
  ]

  -- The frame rule of a ready queue.
  pub Requeued-IsValid : IsValid k' (requeue qs c i xs) ts
  Requeued-IsValid = record {
    lists = lists_lem;
    bits = bits_lem;
    no_idle_bit = λ c'. rw (w.other_bits c' zero (ground arith)) (v.no_idle_bit c');
    queued = queued_lem;
    timers = λ c'. rw (w.same_timers c') (
        IsTaskList-frame k.links k'.links (k.readyqueues c').timers (ts c')
          (λ a m. w.same_links a (timed_apart c' a m)) (v.timers c'));
    timed = λ c' a m. ground (arith, w.same_tasks a, v.timed c' a, w.untimed c');
    ordered = λ c'.
        IsOrdered-same (λ a. (k.task_table a).timeout) (λ a. (k'.task_table a).timeout) (ts c')
          (λ a m. ground (arith, w.same_tasks a, w.untimed c')) (v.ordered c');
    flagged = λ a f. ground (arith, w.same_tasks a, w.unflagged, v.flagged a);
    alone = λ a r.
        ground (arith, w.same_tasks a, w.now_alone, v.alone a, alone_apart a, w.same_links a);
  }
