-- ===== src/Sched/Total.antt =====
-- `scheduler` returns from every valid state, and with `go_down` set it still starts ready tasks.
use libhermit.Base.{
  ℕ, zero, suc, ◌<◌, ◌≡◌, refl, true, false, Option, none, some, List, [], ◌∷◌, arith, inl, inr,
  ltb, ◌==◌, ◌||◌, if◌then◌else◌, Bool-cases, ◌∙◌,
}
use libhermit.Sched.Defs.{Task, Kernel, is_running, is_idle, msb}
use libhermit.Sched.Switch.{Outcome, returned, schedule_from, scheduler, make_current}
use libhermit.Sched.Inv.{has_any, IsValid, same-IsValid}
use libhermit.Sched.Msb.{IsHighest, msb-IsHighest, msb_cases}
use libhermit.Sched.Pick.{pick_next-Started}
use libhermit.Sched.Schedule.{
  noted, noted-IsValid, aside-IsValid, from_running, from_other, from_keeps, scheduler_up,
  is_running_eq,
}

-- `scheduler` has returned, to a kernel that is valid for some queues.
abbrev pub Returns : Outcome → (ℕ → List ℕ) → Type 0
Returns o ts =
    (r : Option ℕ) × (k' : Kernel) × (qs' : ℕ → ℕ → List ℕ) × (o ≡ returned r k')
    × IsValid k' qs' ts

list_cases : (xs : List ℕ) → has_any xs ≡ true → (t : ℕ) × (rest : List ℕ) × (xs ≡ t ∷ rest)
list_cases [] h = ground arith
list_cases (x ∷ xs) h = (x, xs, refl)

module _ {k : Kernel} {qs : ℕ → ℕ → List ℕ} {ts : ℕ → List ℕ} (v : IsValid k qs ts) (c orig d : ℕ)
    (idle : (k.readyqueues c).idle ≡ some d) where
  when_empty :
      msb (k.readyqueues c).prio_bitmap ≡ 64
      → Returns (schedule_from c orig (k.current_task c) k) ts
  unfolding schedule_from
  when_empty e = elim (Bool-cases (is_running t.status || is_idle t.status)) [
    | inl stays ↦ ((if orig == k.current_task c then none else some orig), k, qs, rw (e, stays), v)
    | inr goes ↦ (
      (if orig == d then none else some orig),
      make_current c d k,
      qs,
      rw (e, goes) (ground (arith, idle)),
      same-IsValid v (record {
        links = refl;
        tasks = λ a. refl;
        queue = λ c' i. refl;
        bits = λ c' i. refl;
        timers = λ c'. refl;
      }),
    )
  ]
    where
      t : Task
      t = k.task_table (k.current_task c)

  when_ready :
      (i t : ℕ) (rest : List ℕ)
      → qs c i ≡ t ∷ rest
      → msb (k.readyqueues c).prio_bitmap ≡ suc i
      → suc i < 32
      → Returns (schedule_from c orig (k.current_task c) k) ts
  when_ready i t rest e m l =
      elim (Bool-cases (is_running (k.task_table (k.current_task c)).status)) [
        | inl run ↦ elim (Bool-cases (ltb (suc i) (k.task_table (k.current_task c)).prio)) [
          | inl high ↦ (_, k, qs, from_keeps c (suc i) k m orig l run high, v)
          | inr low ↦
              let (r, k', q, s) =
                pick_next-Started (aside-IsValid v c (is_running_eq run)) c i t orig rest e in
              (r, k', _, from_running c (suc i) k m orig l run low ∙ q, s.valid)
        ]
        | inr stop ↦
            let (r, k', q, s) = pick_next-Started v c i t orig rest e in
            (r, k', _, from_other c (suc i) k m orig l stop ∙ q, s.valid)
      ]

  from_highest :
      (p : ℕ)
      → IsHighest (k.readyqueues c).prio_bitmap 32 p
      → Returns (schedule_from c orig (k.current_task c) k) ts
  from_highest zero h = absurd (ground (arith, h.here, v.no_idle_bit c))
  from_highest (suc i) h =
      let (t, rest, e) = list_cases (qs c i) (ground (arith, h.here, v.bits c i)) in
      when_ready i t rest e (msb-IsHighest (k.readyqueues c).prio_bitmap (suc i) h) h.below

  schedule_from_total : Returns (schedule_from c orig (k.current_task c) k) ts
  schedule_from_total = elim (msb_cases (k.readyqueues c).prio_bitmap) [
    | inl e ↦ when_empty e
    | inr (p, h) ↦ from_highest p h
  ]

module _ {k : Kernel} {qs : ℕ → ℕ → List ℕ} {ts : ℕ → List ℕ} (v : IsValid k qs ts) (c d : ℕ)
    (idle : (k.readyqueues c).idle ≡ some d)
    (home : (k.task_table (k.current_task c)).last_core ≡ c) where
  -- The kernel in which the shutdown has put the idle task in front.
  abbrev lowered : Kernel
  lowered = make_current c d (noted c k)

  lowered-IsValid : IsValid lowered qs ts
  lowered-IsValid = same-IsValid (noted-IsValid v c home) (record {
    links = refl;
    tasks = λ a. refl;
    queue = λ c' i. refl;
    bits = λ c' i. refl;
    timers = λ c'. refl;
  })

  down_run :
      k.go_down ≡ true
      → is_idle (k.task_table (k.current_task c)).status ≡ false
      → scheduler c k ≡ schedule_from c (k.current_task c) (lowered.current_task c) lowered
  unfolding scheduler
  down_run down other = ground (arith, idle)

  -- From a valid state, on a core that has an idle task and whose current task is noted to be on
  -- this core, `scheduler` returns: it neither halts nor dereferences NULL, and the state stays
  -- valid.
  pub scheduler_total : Returns (scheduler c k) ts
  unfolding scheduler
  scheduler_total = elim (Bool-cases k.go_down) [
    | inl down ↦ elim (Bool-cases (is_idle (k.task_table (k.current_task c)).status)) [
      | inl still ↦ (
        (if k.current_task c == k.current_task c then none else some (k.current_task c)),
        noted c k,
        qs,
        rw (down, still),
        noted-IsValid v c home,
      )
      | inr other ↦
          let (r, k', q, e, s) =
            schedule_from_total lowered-IsValid c (k.current_task c) d (ground (arith, idle)) in
          (r, k', q, down_run down other ∙ e, s)
    ]
    | inr up ↦
        let (r, k', q, e, s) =
          schedule_from_total (noted-IsValid v c home) c (k.current_task c) d
            (ground (arith, idle)) in
        (r, k', q, scheduler_up c k up ∙ e, s)
  ]
