-- ===== src/Semaphore/Wait.antt =====
-- The passes of `sem_wait`.
use libhermit.Base.{
  ℕ, suc, ◌-◌, ◌<◌, ◌≡◌, refl, some, List, [], ◌∷◌, ◌++◌, arith, ltb, leb, if◌then◌else◌, length,
  Bool-cases, inl, inr, ◌==◌, ◌||◌,
}
use libhermit.Sched.{Status, Kernel, block_task, block_current_task}
use libhermit.Sched.Inv
use libhermit.Sched.Inv.{retime}
use libhermit.Sched.Block.{block_task-IsValid}
use libhermit.Sched.Alarm.{set_timer-IsValid}
use libhermit.Sched.Insert.{insert_by}
use libhermit.Semaphore.Defs.{
  Sem, Pass, taken, again, timed_out, sem_trywait, wait_pass, timed_pass, enqueue,
}
use libhermit.Semaphore.Ring.{IsValid, value-IsValid, enqueue-IsValid}

module _ {n : ℕ} {s : Sem} {ws : List ℕ} (v : IsValid n s ws) where
  taken-IsValid : IsValid n (record s { value = s.value - 1 }) ws
  taken-IsValid = value-IsValid (s.value - 1) (omega (arith, v.counts)) v

  -- Taking fails, and changes nothing, if no resource is left; otherwise one resource is taken. The
  -- waiting tasks stay.
  pub sem_trywait-IsValid :
      let (done, s') = sem_trywait s in
      IsValid n s' ws × (done ≡ ltb 0 s.value) × (s'.value ≡ s.value - 1)
  unfolding sem_trywait
  sem_trywait-IsValid = elim (Bool-cases (ltb 0 s.value)) [
    | inl e ↦ rw e (taken-IsValid, refl, refl)
    | inr e ↦ rw e (v, refl, ground arith)
  ]

module _ {n : ℕ} {s : Sem} {ws : List ℕ} (v : IsValid n s ws) (here : ℕ) (k : Kernel)
    (room : length ws < n) (id_in : k.current_task here < n) {qs : ℕ → ℕ → List ℕ} {ts : ℕ → List ℕ}
    (w : Inv.IsValid k qs ts) (i : ℕ)
    (awake : (k.task_table (k.current_task here)).status ≡ Status.running)
    (has_prio : (k.task_table (k.current_task here)).prio ≡ suc i) where
  abbrev id : ℕ
  id = k.current_task here

  -- In valid states, with room in the ring, and a running task of priority `i + 1` whose id is
  -- below MAX_TASKS: if a resource is left, the task takes it. Otherwise it becomes the last one of
  -- those that wait, and it is blocked. The semaphore and the scheduler stay valid.
  pub wait_pass-IsValid :
      (s' : Sem) × (k' : Kernel) × (wait_pass n here (s, k) ≡ (ltb 0 s.value, s', k'))
      × IsValid n s' (if ltb 0 s.value then ws else ws ++ id ∷ [])
      × Inv.IsValid k' qs ts
      × ((k'.task_table id).status ≡ (if ltb 0 s.value then Status.running else Status.blocked))
  unfolding wait_pass block_current_task
  wait_pass-IsValid = elim (Bool-cases (ltb 0 s.value)) [
    | inl e ↦
        (record s { value = s.value - 1 }, k, rw e refl, rw e (taken-IsValid v), w, rw e awake)
    | inr e ↦
        let (_, kept, stopped) = block_task-IsValid w id i awake has_prio in
        (
          enqueue n id s,
          (block_task id k).1,
          rw e refl,
          rw e (enqueue-IsValid v id room id_in),
          kept,
          rw e stopped,
        )
  ]

  module _ (fuel now deadline : ℕ) (home : (k.task_table (k.current_task here)).last_core ≡ here)
      (enough : length (ts here) < fuel) where
    abbrev timeouts : ℕ → ℕ
    timeouts a = if id == a then deadline else (k.task_table a).timeout

    -- In valid states, with room in the ring, a task of priority `i + 1` that runs on this core and
    -- whose id is below MAX_TASKS, and with more fuel than the core has timers: a pass with a
    -- timeout takes one resource from the value if any is left, and otherwise leaves the value as
    -- it is. Then it gives up if the deadline has come; if not, the task becomes the last one of
    -- those that wait and stands in the timer queue of its core, ordered by its deadline. The
    -- semaphore and the scheduler stay valid.
    pub timed_pass-IsValid :
        (p : Pass) × (s' : Sem) × (k' : Kernel) × (timed_pass n fuel now here deadline (s, k)
          ≡ some (p, s', k'))
        × (p ≡ (if ltb 0 s.value then taken else if leb deadline now then timed_out else again))
        × (s'.value ≡ (if ltb 0 s.value then s.value - 1 else s.value))
        × IsValid n s' (if ltb 0 s.value || leb deadline now then ws else ws ++ id ∷ [])
        × Inv.IsValid k' qs (
            if ltb 0 s.value || leb deadline now
            then ts
            else retime ts here (insert_by timeouts id (ts here)))
    unfolding timed_pass
    timed_pass-IsValid = elim (Bool-cases (ltb 0 s.value)) [
      | inl e ↦ (
        taken,
        record s { value = s.value - 1 },
        k,
        rw e refl,
        rw e refl,
        rw e refl,
        rw e (taken-IsValid v),
        rw e w,
      )
      | inr e ↦ elim (Bool-cases (leb deadline now)) [
        | inl late ↦ (
          timed_out,
          s,
          k,
          rw (e, late) refl,
          rw (e, late) refl,
          rw e refl,
          rw (e, late) v,
          rw (e, late) w,
        )
        | inr early ↦
            let (k', q, kept) =
              set_timer-IsValid w fuel now here deadline i awake home has_prio enough in
            (
              again,
              enqueue n id s,
              k',
              rw (e, early, q) refl,
              rw (e, early) refl,
              rw e refl,
              rw (e, early) (enqueue-IsValid v id room id_in),
              rw (e, early) kept,
            )
      ]
    ]
