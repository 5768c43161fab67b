-- ===== src/Spin/Tests.antt =====
-- Two tasks: task 0 holds the lock, and task 1 waits.
use libhermit.Base.{ℕ, ◌≡◌, refl, true, [], arith, ◌⊎◌}
use libhermit.Spin.Lock.{
  Pc, between, spinning, System, pick, Reach, start, later, init, critical, check, take, win, own,
  count,
}
use libhermit.Spin.Inv.{Inv}
use libhermit.Spin.Waiters.{moved}
use libhermit.Spin.Moves.{Move-Inv}
use libhermit.Spin.Safety.{init-Inv, mutual_exclusion, no_deadlock}

contended : (s : System) × Reach 4 2 s × (s.pc 0 ≡ between 1) × (s.pc 1 ≡ spinning 0 2)
contended = (
  _,
  later
      (later
        (later
          (later
            (later
              (later (later start (pick 0 (omega arith) (check (λ e. omega arith))))
                (pick 0 (omega arith) take))
              (pick 0 (omega arith) (win refl)))
            (pick 0 (omega arith) own))
          (pick 0 (omega arith) count))
        (pick 1 (omega arith) (check (λ e. omega arith))))
      (pick 1 (omega arith) take),
  refl,
  refl,
)

Move-Inv_example : Inv 4 2 (moved (init 4) 0 (init 4).lock (Pc.checked 0)) []
Move-Inv_example =
    Move-Inv (init-Inv 4 2 (omega arith) (omega arith)) (omega arith) (check (λ e. omega arith))

mutual_exclusion_example : ◌≡◌ {A = ℕ} 0 0
unfolding contended
mutual_exclusion_example = mutual_exclusion (omega arith) (omega arith) contended.1 0 0 refl refl

no_deadlock_example :
    (j : ℕ) × ((critical (contended.0.pc j) ≡ true)
      ⊎ (contended.0.pc j ≡ spinning 0 contended.0.lock.dequeue))
unfolding contended
no_deadlock_example = no_deadlock (omega arith) (omega arith) contended.1 1 0 2 refl
