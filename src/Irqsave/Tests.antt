-- ===== src/Irqsave/Tests.antt =====
-- Two tasks; the interrupts of task 0 are on, those of task 1 are off. Task 0 leaves the lock while
-- task 1 comes in.
use libhermit.Base.{ℕ, ◌≡◌, refl, Bool, false, ◌==◌, arith}
use libhermit.Irqsave.Lock.{
  between, won, enabling, System, pick, Reach, start, later, disable, check, take, win, note, own,
  count, lower, lowered, leave, clear, release,
}
use libhermit.Irqsave.Refine.{irqsave_exclusion}
use libhermit.Irqsave.Interrupts.{IsDisabled, Reach-IsDisabled}

abbrev irqs : ℕ → Bool
irqs i = i == 0

held : (s : System) × Reach 4 2 irqs s × (s.pc 0 ≡ between 1)
held = (
  _,
  later
      (later
        (later
          (later
            (later
              (later (later start (pick 0 (omega arith) disable))
                (pick 0 (omega arith) (check (λ e. omega arith))))
              (pick 0 (omega arith) take))
            (pick 0 (omega arith) (win refl)))
          (pick 0 (omega arith) note))
        (pick 0 (omega arith) own))
      (pick 0 (omega arith) count),
  refl,
)

handing : (s : System) × Reach 4 2 irqs s × (s.pc 0 ≡ enabling 0) × (s.pc 1 ≡ won 0 false)
unfolding held
handing = (
  _,
  later
      (later
        (later
          (later
            (later
              (later
                (later
                  (later (later held.1 (pick 1 (omega arith) disable))
                    (pick 1 (omega arith) (check (λ e. omega arith))))
                  (pick 1 (omega arith) take))
                (pick 0 (omega arith) lower))
              (pick 0 (omega arith) lowered))
            (pick 0 (omega arith) (leave refl)))
          (pick 0 (omega arith) clear))
        (pick 0 (omega arith) release))
      (pick 1 (omega arith) (win refl)),
  refl,
  refl,
)

irqsave_exclusion_example : ◌≡◌ {A = ℕ} 0 0
unfolding held
irqsave_exclusion_example = irqsave_exclusion (omega arith) (omega arith) held.1 0 0 refl refl

Reach-IsDisabled_example : IsDisabled (between 1) false
unfolding held
Reach-IsDisabled_example = Reach-IsDisabled (omega arith) (omega arith) held.1 refl 0
