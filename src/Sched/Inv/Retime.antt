-- ===== src/Sched/Inv/Retime.antt =====
-- What a change of one timer queue has to show to keep the invariant.
use libhermit.Base.{
  ℕ, suc, zero, ◌≡◌, true, false, inl, inr, List, ◌∷◌, arith, ◌==◌, mem, Bool-cases, subst, ==_iff,
  ◌≢◌,
}
use libhermit.TaskList.{IsTaskList, IsTaskList-frame}
use libhermit.Sched.Defs.{Status, Kernel}
use libhermit.Sched.Inv.Defs.{IsTimed, IsOrdered, IsValid, retime}
use libhermit.Sched.Inv.Frame.{IsOrdered-same}

-- From `k` to `k'` only the task `t` changes, and the timer queue of core `c`, which then holds
-- `xs`.
pub record Retimed (k k' : Kernel) (qs : ℕ → ℕ → List ℕ) (ts : ℕ → List ℕ) (c t : ℕ) (xs : List ℕ)
    : Type 0 where
  pub list : IsTaskList k'.links (k'.readyqueues c).timers xs
  pub other_timers :
      (c' : ℕ) → (c == c') ≡ false → (k'.readyqueues c').timers ≡ (k.readyqueues c').timers
  pub same_queues : (c' i : ℕ) → (k'.readyqueues c').queue i ≡ (k.readyqueues c').queue i
  pub same_bits : (c' i : ℕ) → (k'.readyqueues c').prio_bitmap i ≡ (k.readyqueues c').prio_bitmap i
  pub same_tasks : (a : ℕ) → (t == a) ≡ false → k'.task_table a ≡ k.task_table a
  pub same_links :
      (a : ℕ)
      → mem a (t ∷ ts c) ≡ false
      → (k'.links.next a ≡ k.links.next a) × (k'.links.prev a ≡ k.links.prev a)
  pub members : (a : ℕ) → (t == a) ≡ false → mem a xs ≡ mem a (ts c)
  pub unqueued : (c' i : ℕ) → mem t (qs c' i) ≡ false
  pub elsewhere : (c' : ℕ) → (c == c') ≡ false → mem t (ts c') ≡ false
  pub now_timed : mem t xs ≡ true → IsTimed (k'.task_table t) c
  pub now_flagged : mem t xs ≡ false → (k'.task_table t).timer ≡ false
  pub now_ordered : IsOrdered (λ a. (k'.task_table a).timeout) xs
  pub idle_links : (k'.task_table t).status ≢ Status.running

module _ {k k' : Kernel} {qs : ℕ → ℕ → List ℕ} {ts : ℕ → List ℕ} {c t : ℕ} {xs : List ℕ}
    (v : IsValid k qs ts) (w : Retimed k k' qs ts c t xs) where
  queued_apart : (c' i a : ℕ) → mem a (qs c' i) ≡ true → mem a (t ∷ ts c) ≡ false
  queued_apart c' i a m = ground (arith, w.unqueued c' i, v.queued c' i a, v.timed c a, ==_iff t a)

  timed_apart : (c' a : ℕ) → (c == c') ≡ false → mem a (ts c') ≡ true → mem a (t ∷ ts c) ≡ false
  timed_apart c' a n m = ground (arith, w.elsewhere c', v.timed c' a, v.timed c a, ==_iff t a)

  alone_apart :
      (a : ℕ)
      → (k.task_table a).status ≡ Status.running
      → (t == a) ≡ false
      → mem a (t ∷ ts c) ≡ false
  alone_apart a r n = ground (arith, v.timed c a)

  timers_lem : (c' : ℕ) → IsTaskList k'.links (k'.readyqueues c').timers (retime ts c xs c')
  timers_lem c' = elim (Bool-cases (c == c')) [
    | inl e ↦
        rw e
          (subst (λ u. IsTaskList k'.links (k'.readyqueues u).timers xs) ((==_iff c c').0 e) w.list)
    | inr n ↦
        rw (n, w.other_timers c' n)
          (IsTaskList-frame k.links k'.links (k.readyqueues c').timers (ts c')
            (λ a m. w.same_links a (timed_apart c' a n m)) (v.timers c'))
  ]

  ordered_lem : (c' : ℕ) → IsOrdered (λ a. (k'.task_table a).timeout) (retime ts c xs c')
  ordered_lem c' = elim (Bool-cases (c == c')) [
    | inl e ↦ rw e w.now_ordered
    | inr n ↦ rw n (
        IsOrdered-same (λ a. (k.task_table a).timeout) (λ a. (k'.task_table a).timeout) (ts c')
          (λ a m. ground (arith, w.same_tasks a, w.elsewhere c', ==_iff t a)) (v.ordered c'))
  ]

  -- The frame rule of a timer queue.
  pub Retimed-IsValid : IsValid k' qs (retime ts c xs)
  Retimed-IsValid = record {
    lists = λ c' i. rw (w.same_queues c' i) (
        IsTaskList-frame k.links k'.links ((k.readyqueues c').queue i) (qs c' i)
          (λ a m. w.same_links a (queued_apart c' i a m)) (v.lists c' i));
    bits = λ c' i. rw (w.same_bits c' (suc i)) (v.bits c' i);
    no_idle_bit = λ c'. rw (w.same_bits c' zero) (v.no_idle_bit c');
    queued =
        λ c' i a m. ground (arith, w.same_tasks a, v.queued c' i a, w.unqueued c' i, ==_iff t a);
    timers = timers_lem;
    timed = λ c' a m.
        ground (
          arith,
          w.same_tasks a,
          w.members a,
          v.timed c' a,
          w.elsewhere c',
          w.now_timed,
          ==_iff t a,
        );
    ordered = ordered_lem;
    flagged = λ a f. ground (
      arith,
      w.same_tasks a,
      w.members a,
      v.flagged a,
      w.now_timed,
      w.now_flagged,
      Bool-cases (mem t xs),
      ==_iff t a,
    );
    alone = λ a r.
        ground (arith, w.same_tasks a, v.alone a, alone_apart a, w.same_links a, w.idle_links);
  }
