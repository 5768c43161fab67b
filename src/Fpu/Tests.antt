-- ===== src/Fpu/Tests.antt =====
-- Runs of the theorems: task 1 computes, task 2 uses the FPU, and task 1 gets it back.
use libhermit.Base.{ℕ, ◌≡◌, ◌≢◌, refl, false, none, arith, ◌==◌, update}
use libhermit.Sched.Machine.{machine}
use libhermit.Fpu.Defs.{
  Fpu, compute, trap, switch, set_owner, arch_fpu_handler, fpu_handler, switch_to,
}
use libhermit.Fpu.Moves.{Inv}
use libhermit.Fpu.Isolation.{Run, stay, next, Run-isolated}

-- Task 1 runs on core 0 and owns the registers.
abbrev owned : Fpu
owned = set_owner 0 1 (record {
  kernel = machine false none;
  area = λ t. 3;
  used = λ t. t == 1;
  inited = λ t. t == 1;
  regs = λ c. 42;
  switched = λ c. false;
})

owned-Inv : Inv 5 0 owned
owned-Inv = record { mine = λ e. refl; ready = λ e. refl }

-- Task 2 gets the core, traps and computes; task 1 gets the core and traps.
abbrev at_two : Fpu
at_two = arch_fpu_handler 5 0 (switch_to 0 2 owned)

abbrev back : Fpu
back = arch_fpu_handler 5 0 (switch_to 0 1 (record at_two { regs = update at_two.regs 0 7 }))

one≢zero : ◌≢◌ {A = ℕ} 1 0
one≢zero e = absurd (omega (arith, e))

two≢zero : ◌≢◌ {A = ℕ} 2 0
two≢zero e = absurd (omega (arith, e))

history : Run 5 0 owned back
unfolding arch_fpu_handler fpu_handler
history =
    next
      (next (next (next (next stay (switch 2)) (trap refl two≢zero)) (compute 7 refl two≢zero))
        (switch 1))
      (trap refl one≢zero)

Run-isolated_example : back.regs 0 ≡ 42
unfolding arch_fpu_handler fpu_handler history
Run-isolated_example = Run-isolated 5 0 history 1 one≢zero owned-Inv refl refl refl refl refl
