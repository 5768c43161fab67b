-- ===== src/Fpu/Moves.antt =====
-- What each step does to the contents that the tasks see.
use libhermit.Base.{ℕ, ◌≡◌, ◌≢◌, refl, Bool, true, false, ◌==◌, if◌then◌else◌, arith, ==-refl}
use libhermit.Sched.{clean_up}
use libhermit.Fpu.Defs.{
  Fpu, owner, current, fpu_handler, arch_fpu_handler, Move, compute, trap, switch, finish,
}

module _ (initial core : ℕ) where
  -- The contents that task `t` finds when it uses the FPU.
  abbrev pub view : Fpu → ℕ → ℕ
  view f t = if owner core f == t then f.regs core else if f.inited t then f.area t else initial

  pub record Inv (f : Fpu) : Type 0 where
    pub mine : f.switched core ≡ false → owner core f ≡ current core f
    pub ready : owner core f ≢ 0 → f.inited (owner core f) ≡ true

  handler-Inv : (f : Fpu) → current core f ≢ 0 → Inv f → Inv (arch_fpu_handler initial core f)
  unfolding arch_fpu_handler fpu_handler
  handler-Inv f n v = record { mine = λ e. ground arith; ready = λ e. ground (arith, v.ready) }

  handler-view :
      (f : Fpu) (t : ℕ)
      → t ≢ 0
      → current core f ≢ 0
      → Inv f
      → view (arch_fpu_handler initial core f) t ≡ view f t
  unfolding arch_fpu_handler fpu_handler
  handler-view f t z n v = ground (arith, v.ready)

  pub handler-regs :
      (f : Fpu)
      → current core f ≢ 0
      → Inv f
      → (arch_fpu_handler initial core f).regs core ≡ view f (current core f)
  unfolding arch_fpu_handler fpu_handler
  handler-regs f n v = ground (arith, v.ready, ==-refl core)

  -- The task computes in this step, or its slot is cleaned up.
  abbrev pub is_touched : ℕ → {f : Fpu} {f' : Fpu} → Move initial core f f' → Bool
  is_touched t {f = f} (compute x _ _) = current core f == t
  is_touched t (trap _ _) = false
  is_touched t (switch id) = false
  is_touched t (finish id _) = id == t

  pub Move-Inv : {f f' : Fpu} → Move initial core f f' → Inv f → Inv f'
  unfolding clean_up
  Move-Inv {f} (compute x s n) v = record { mine = v.mine; ready = v.ready }
  Move-Inv {f} (trap s n) v = handler-Inv f n v
  Move-Inv {f} (switch id) v = record { mine = λ e. ground (arith, ==-refl core); ready = v.ready }
  Move-Inv {f} (finish id n) v = record {
    mine = λ e. ground (arith, v.mine);
    ready = λ e. ground (arith, v.ready);
  }

  pub Move-view :
      {f f' : Fpu} (m : Move initial core f f') (t : ℕ)
      → t ≢ 0
      → Inv f
      → is_touched t m ≡ false
      → view f' t ≡ view f t
  unfolding clean_up
  Move-view {f} (compute x s n) t z v e = ground (arith, v.mine)
  Move-view {f} (trap s n) t z v e = handler-view f t z n v
  Move-view {f} (switch id) t z v e = refl
  Move-view {f} (finish id n) t z v e = ground (arith, ==-refl core)
