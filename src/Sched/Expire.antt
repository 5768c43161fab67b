-- ===== src/Sched/Expire.antt =====
-- `check_timers` wakes every task whose time has come.
use libhermit.Base.{
  ℕ, zero, suc, ◌-◌, ◌%◌, ◌^◌, ◌≤◌, ◌<◌, ◌≡◌, refl, Bool, true, false, Option, none, some, List, [],
  ◌∷◌, ◌++◌, arith, ==-refl, ==_iff, leb, mem, erase, length, Bool-cases, inl, inr, fun_ext, subst,
  subst₂, sym, ◌∙◌, ap, append_assoc,
}
use mathlib.Core.List.{append-nil, cons≢nil}
use libhermit.Sched.Defs.{Kernel}
use libhermit.Sched.Timer.{update_timer}
use libhermit.Sched.Ops.{wakeup_task, expire, check_timers}
use libhermit.Sched.Inv.{IsOrdered, IsValid, requeue, retime, IsSame, same-IsValid}
use libhermit.Sched.Wake.{wakeup_task-IsValid}
use libhermit.Sched.Due.{
  due, pending, of_prio, arrived, wakeup_task-IsKept, later_due, first_of, first_timer,
}

module _ (prio key : ℕ → ℕ) (now here : ℕ) where
  -- The tasks have these priorities and timeouts.
  record HasKeys (k : Kernel) : Type 0 where
    prios : (a : ℕ) → (k.task_table a).prio ≡ prio a
    timeouts : (a : ℕ) → (k.task_table a).timeout ≡ key a

  -- The state after the due ones of the timers `xs` have been woken.
  record Expired (qs : ℕ → ℕ → List ℕ) (ts : ℕ → List ℕ) (xs : List ℕ) (k' : Kernel) : Type 0 where
    valid : IsValid k' (arrived prio qs here (due key now xs)) (retime ts here (pending key now xs))
    keys : HasKeys k'

  abbrev IsPrio : ℕ → Type 0
  IsPrio p = (1 ≤ p) × (p ≤ 31)

  wake_one :
      {k : Kernel} {qs : ℕ → ℕ → List ℕ} {ts : ℕ → List ℕ} (v : IsValid k qs ts) (h : HasKeys k)
      (x : ℕ) (xs : List ℕ)
      → ts here ≡ x ∷ xs
      → IsPrio (prio x)
      → IsValid
          (wakeup_task now here x k).1
          (requeue qs here (prio x - 1) (qs here (prio x - 1) ++ x ∷ []))
          (retime ts here xs)
  wake_one {k} {qs} {ts} v h x xs e p =
      let timed = v.timed here x (ground (arith, ==-refl x)) in
      subst
        (λ (ys : List ℕ).
          IsValid (wakeup_task now here x k).1
            (requeue qs here (prio x - 1) (qs here (prio x - 1) ++ x ∷ [])) (retime ts here ys))
        (ap (erase x) e ∙ ground (arith, ==-refl x))
        (subst
          (λ (c : ℕ).
            IsValid (wakeup_task now here x k).1
              (requeue qs c (prio x - 1) (qs c (prio x - 1) ++ x ∷ []))
              (retime ts c (erase x (ts c))))
          timed.on_core
          (wakeup_task-IsValid v now here x (prio x - 1) timed.is_blocked
            (h.prios x ∙ omega (arith, p)) (omega (arith, p))).1)

  woken-HasKeys : {k : Kernel} (x : ℕ) → HasKeys k → HasKeys (wakeup_task now here x k).1
  woken-HasKeys {k} x h =
      let w = wakeup_task-IsKept now here x k in
      record { prios = λ a. w.prios a ∙ h.prios a; timeouts = λ a. w.timeouts a ∙ h.timeouts a }

  arrived-cons :
      (qs : ℕ → ℕ → List ℕ) (x : ℕ) (xs : List ℕ)
      → IsPrio (prio x)
      → arrived prio (requeue qs here (prio x - 1) (qs here (prio x - 1) ++ x ∷ [])) here xs
        ≡ arrived prio qs here (x ∷ xs)
  arrived-cons qs x xs p =
      fun_ext λ c. fun_ext λ i. ground (arith, append_assoc (qs c i) (x ∷ []) (of_prio prio i xs))

  due-cons :
      (x : ℕ) (xs : List ℕ) → leb (key x) now ≡ true → due key now (x ∷ xs) ≡ x ∷ due key now xs
  due-cons x xs e = ground arith

  pending-cons :
      (x : ℕ) (xs : List ℕ) → leb (key x) now ≡ true → pending key now (x ∷ xs) ≡ pending key now xs
  pending-cons x xs e = ground arith

  retime_twice :
      (ts : ℕ → List ℕ) (xs ys : List ℕ) → retime (retime ts here xs) here ys ≡ retime ts here ys
  retime_twice ts xs ys = fun_ext λ c. ground arith

  retime_same : (ts : ℕ → List ℕ) (xs : List ℕ) → ts here ≡ xs → retime ts here xs ≡ ts
  retime_same ts xs e = fun_ext λ c. ground (arith, ==_iff here c)

  arrived_none : (qs : ℕ → ℕ → List ℕ) → arrived prio qs here [] ≡ qs
  arrived_none qs = fun_ext λ c. fun_ext λ i. ground (arith, append-nil (qs c i))

  arrived_now :
      (qs : ℕ → ℕ → List ℕ) (x : ℕ) (xs : List ℕ)
      → leb (key x) now ≡ true
      → IsPrio (prio x)
      → arrived prio
          (requeue qs here (prio x - 1) (qs here (prio x - 1) ++ x ∷ []))
          here
          (due key now xs)
        ≡ arrived prio qs here (due key now (x ∷ xs))
  arrived_now qs x xs e p =
      arrived-cons qs x (due key now xs) p ∙ sym (ap (arrived prio qs here) (due-cons x xs e))

  abbrev turn : ℕ → Kernel → ℕ → Bool → Option Kernel
  turn fuel k x d = elim d [
    | true ↦ expire fuel now here (wakeup_task now here x k).1
    | false ↦ some k
  ]

  abbrev look : ℕ → Kernel → Option ℕ → Option Kernel
  look fuel k o = elim o [
    | none ↦ some k
    | some x ↦ turn fuel k x (leb (k.task_table x).timeout now)
  ]

  expire-look :
      (fuel : ℕ) {k : Kernel} {qs : ℕ → ℕ → List ℕ} {ts : ℕ → List ℕ} (v : IsValid k qs ts)
      → expire (suc fuel) now here k ≡ look fuel k (first_of (ts here))
  unfolding expire
  expire-look fuel {k} v = ap (look fuel k) (first_timer v here)

  expire-turn :
      (fuel : ℕ) {k : Kernel} {qs : ℕ → ℕ → List ℕ} {ts : ℕ → List ℕ} (v : IsValid k qs ts)
      (h : HasKeys k) (x : ℕ) (xs : List ℕ) (d : Bool)
      → ts here ≡ x ∷ xs
      → leb (key x) now ≡ d
      → expire (suc fuel) now here k ≡ turn fuel k x d
  expire-turn fuel {k} v h x xs d e b =
      expire-look fuel v
      ∙ ap (λ l. look fuel k (first_of l)) e
      ∙ ap (turn fuel k x) (ap (λ t. leb t now) (h.timeouts x) ∙ b)

  expire-Expired :
      (fuel : ℕ) {k : Kernel} {qs : ℕ → ℕ → List ℕ} {ts : ℕ → List ℕ} (v : IsValid k qs ts)
      (h : HasKeys k) (xs : List ℕ)
      → ts here ≡ xs
      → ((a : ℕ) → mem a xs ≡ true → IsPrio (prio a))
      → length xs < fuel
      → (k' : Kernel) × (expire fuel now here k ≡ some k') × Expired qs ts xs k'
  expire-Expired zero v h xs e p l = absurd (omega arith)
  expire-Expired (suc fuel) {k} {qs} {ts} v h [] e p l = (
    k,
    expire-look fuel v ∙ ap (λ l. look fuel k (first_of l)) e,
    record {
      valid = subst₂ (λ q t. IsValid k q t) (sym (arrived_none qs)) (sym (retime_same ts [] e)) v;
      keys = h;
    },
  )
  expire-Expired (suc fuel) {k} {qs} {ts} v h (x ∷ xs) e p l = elim (Bool-cases (leb (key x) now)) [
    | inl d ↦
        let (k', r, w) =
          expire-Expired fuel (wake_one v h x xs e (p x (ground (arith, ==-refl x))))
            (woken-HasKeys x h) xs (ground (arith, ==-refl here)) (λ a m. p a (ground arith))
            (omega arith) in
        (
          k',
          expire-turn fuel v h x xs true e d ∙ r,
          record {
            valid =
                subst₂ (λ q t. IsValid k' q t)
                  (arrived_now qs x xs d (p x (ground (arith, ==-refl x))))
                  (retime_twice ts xs (pending key now xs)
                    ∙ sym (ap (retime ts here) (pending-cons x xs d)))
                  w.valid;
            keys = w.keys;
          },
        )
    | inr d ↦
        let (nothing, all) =
          later_due key now x xs
            (subst₂ (λ f l. IsOrdered f l) (fun_ext h.timeouts) e (v.ordered here)) d in
        (
          k,
          expire-turn fuel v h x xs false e d,
          record {
            valid =
                subst₂ (λ (d t : List ℕ). IsValid k (arrived prio qs here d) (retime ts here t))
                  (sym nothing) (sym all)
                  (subst₂ (λ q t. IsValid k q t) (sym (arrived_none qs))
                    (sym (retime_same ts (x ∷ xs) e)) v);
            keys = h;
          },
        )
  ]

-- The timer of the core is set to the first of the tasks that still wait, a 32-bit number of ticks
-- ahead.
abbrev pub IsArmed : (ℕ → ℕ) → ℕ → Option ℕ → List ℕ → Type 0
IsArmed key now alarm [] = Unit
IsArmed key now alarm (x ∷ xs) = alarm ≡ some ((key x - now) % 2 ^ 32)

update_timer-IsSame : (now here x : ℕ) (k : Kernel) → IsSame k (update_timer now here (some x) k)
unfolding update_timer
update_timer-IsSame now here x k = record {
  links = refl;
  tasks = λ a. refl;
  queue = λ c i. refl;
  bits = λ c i. refl;
  timers = λ c. refl;
}

pending-late :
    (key : ℕ → ℕ) (now x : ℕ) (xs ys : List ℕ) → pending key now xs ≡ x ∷ ys → now < key x
pending-late key now x [] ys e = absurd (cons≢nil (sym e))
pending-late key now x (z ∷ zs) ys e = ground (arith, pending-late key now x zs ys)

module _ {k : Kernel} {qs : ℕ → ℕ → List ℕ} {ts : ℕ → List ℕ} (v : IsValid k qs ts)
    (fuel now here : ℕ) (enough : length (ts here) < fuel)
    (prios : (a : ℕ)
      → mem a (ts here) ≡ true
      → (1 ≤ (k.task_table a).prio) × ((k.task_table a).prio ≤ 31)) where
  abbrev prio_of : ℕ → ℕ
  prio_of a = (k.task_table a).prio

  abbrev timeout_of : ℕ → ℕ
  timeout_of a = (k.task_table a).timeout

  abbrev waits : List ℕ
  waits = pending timeout_of now (ts here)

  abbrev rearm : Kernel → Option ℕ → Option Kernel
  rearm m o = elim o [ none ↦ some m | some x ↦ some (update_timer now here (some x) m) ]

  abbrev after : Option Kernel → Option Kernel
  after o = elim o [ none ↦ none | some m ↦ rearm m (m.readyqueues here).timers.first ]

  rearm_lem :
      {m : Kernel} {qs' : ℕ → ℕ → List ℕ} {ts' : ℕ → List ℕ} (w : IsValid m qs' ts') (xs : List ℕ)
      → ((a : ℕ) → (m.task_table a).timeout ≡ timeout_of a)
      → waits ≡ xs
      → (k' : Kernel) × (rearm m (first_of xs) ≡ some k')
        × IsValid k' qs' ts'
        × IsArmed timeout_of now (k'.alarm here) xs
  unfolding update_timer
  rearm_lem {m} w [] h e = (m, refl, w, tt)
  rearm_lem {m} w (x ∷ xs) h e = (
    update_timer now here (some x) m,
    refl,
    same-IsValid w (update_timer-IsSame now here x m),
    set,
  )
    where
      set : (update_timer now here (some x) m).alarm here ≡ some ((timeout_of x - now) % 4294967296)
      set = ground (arith, h x, pending-late timeout_of now x (ts here) xs e, ==-refl here)

  -- In a valid state where every task that waits for this core's timer has a priority from 1 to 31,
  -- and with more fuel than there are such tasks: `check_timers` returns. Exactly the tasks whose
  -- timeout has come are woken: they leave the timer queue and stand at the end of the ready queue
  -- of their priority, in the order of their timeouts, and the others still wait. If any does, the
  -- timer is set to the ticks until the first of them is due (cut to 32 bits). The invariant is
  -- kept.
  pub check_timers_lem :
      (k' : Kernel) × (check_timers fuel now here k ≡ some k')
      × IsValid k' (arrived prio_of qs here (due timeout_of now (ts here))) (retime ts here waits)
      × IsArmed timeout_of now (k'.alarm here) waits
  unfolding check_timers
  check_timers_lem =
      let (m, e, w) =
        expire-Expired prio_of timeout_of now here fuel v
          (record { prios = λ a. refl; timeouts = λ a. refl }) (ts here) refl prios enough in
      let (k', f, valid, set) = rearm_lem w.valid waits w.keys.timeouts refl in
      (
        k',
        ap after e
            ∙ ap (rearm m) (first_timer w.valid here ∙ ap first_of (ground (arith, ==-refl here)))
            ∙ f,
        valid,
        set,
      )
