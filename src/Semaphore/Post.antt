-- ===== src/Semaphore/Post.antt =====
-- `sem_post` wakes the task that has waited longest.
use libhermit.Base.{
  ℕ, suc, ◌+◌, ◌%◌, ◌^◌, ◌<◌, ◌≡◌, refl, List, [], ◌∷◌, ◌++◌, arith, sym, subst, ◌∙◌, erase, ◌≢◌,
  set,
}
use native.Mathlib.Nat.{mod-lt}
use libhermit.Sched.{Status, Kernel, wakeup_task}
use libhermit.Sched.Inv
use libhermit.Sched.Inv.{requeue, retime}
use libhermit.Sched.Wake.{wakeup_task-IsValid}
use libhermit.Semaphore.Defs.{Sem, sem_post, step_pos}
use libhermit.Semaphore.Ring.{IsValid, value-IsValid, oldest-none, oldest-some, dequeue-IsValid}

-- The semaphore with one resource more.
abbrev up : Sem → Sem
up s = record s { value = (s.value + 1) % 2 ^ 32 }

up-IsValid : {n : ℕ} {s : Sem} {ws : List ℕ} → IsValid n s ws → IsValid n (up s) ws
up-IsValid {s} v =
    value-IsValid ((s.value + 1) % 2 ^ 32) (mod-lt (s.value + 1) {m = 2 ^ 32} (omega arith)) v

-- The semaphore after the oldest task has left the ring.
abbrev left : ℕ → Sem → Sem
left n s = record (up s) { queue = set s.queue s.rpos n; rpos = step_pos n s.rpos }

module _ {n : ℕ} {s : Sem} (now here : ℕ) (k : Kernel) where
  -- With no task waiting, a resource is added, and no task is touched.
  pub sem_post-none :
      IsValid n s []
      → let (s', k') = sem_post n now here (s, k) in
        IsValid n s' [] × (s'.value ≡ (s.value + 1) % 2 ^ 32) × (k' ≡ k)
  unfolding sem_post
  sem_post-none v =
      subst
        (λ (r : Sem × Kernel). IsValid n r.0 [] × (r.0.value ≡ (s.value + 1) % 2 ^ 32) × (r.1 ≡ k))
        (sym (ground (arith, oldest-none v))) (up-IsValid v, refl, refl)

  -- With tasks waiting, a resource is added, the oldest task leaves the ring, and it is passed to
  -- `wakeup_task`; the other tasks wait on in their order.
  pub sem_post-some :
      (t : ℕ) (rest : List ℕ)
      → IsValid n s (t ∷ rest)
      → let (s', k') = sem_post n now here (s, k) in
        IsValid n s' rest
        × (s'.value ≡ (s.value + 1) % 2 ^ 32)
        × (k' ≡ (wakeup_task now here t k).1)
  unfolding sem_post
  sem_post-some t rest v =
      subst
        (λ (r : Sem × Kernel).
          IsValid n r.0 rest
          × (r.0.value ≡ (s.value + 1) % 2 ^ 32)
          × (r.1 ≡ (wakeup_task now here t k).1))
        (sym post-eq) (dequeue-IsValid t rest (up-IsValid v), refl, refl)
    where
      post-eq : sem_post n now here (s, k) ≡ (left n s, (wakeup_task now here t k).1)
      post-eq = ground (arith, oldest-some t rest v, v.ids)

module _ {n : ℕ} {s : Sem} {k : Kernel} {t : ℕ} {rest : List ℕ} (v : IsValid n s (t ∷ rest))
    (now here : ℕ) where
  -- In a valid state of the semaphore and of the scheduler, if the task that has waited longest is
  -- blocked and has priority `i + 1`, at most 31, then `sem_post` takes it off the ring and appends
  -- it to its ready queue, and both states stay valid.
  pub sem_post-wakes :
      {qs : ℕ → ℕ → List ℕ} {ts : ℕ → List ℕ} (i : ℕ)
      → Inv.IsValid k qs ts
      → (k.task_table t).status ≡ Status.blocked
      → (k.task_table t).prio ≡ suc i
      → i < 31
      → let c = (k.task_table t).last_core in
        let (s', k') = sem_post n now here (s, k) in
        IsValid n s' rest
        × Inv.IsValid k' (requeue qs c i (qs c i ++ t ∷ [])) (retime ts c (erase t (ts c)))
  sem_post-wakes {qs} {ts} i w asleep has_prio in_range =
      let (valid, _, woken) = sem_post-some now here k t rest v in
      let (_, kept) = wakeup_task-IsValid w now here t i asleep has_prio in_range in
      (
        valid,
        subst
            (λ (k' : Kernel).
              Inv.IsValid k'
                (requeue qs (k.task_table t).last_core i
                  (qs (k.task_table t).last_core i ++ t ∷ []))
                (retime ts (k.task_table t).last_core (erase t (ts (k.task_table t).last_core))))
            (sym woken) kept,
      )

  -- If the oldest entry is of a task that is no longer blocked, as `sem_wait` leaves it when a
  -- timeout has passed, then posting wakes no task at all, whichever tasks wait behind it.
  pub sem_post-stale :
      (k.task_table t).status ≢ Status.blocked
      → let (s', k') = sem_post n now here (s, k) in IsValid n s' rest × (k' ≡ k)
  unfolding wakeup_task
  sem_post-stale awake =
      let (valid, _, woken) = sem_post-some now here k t rest v in (valid, woken ∙ ground arith)
