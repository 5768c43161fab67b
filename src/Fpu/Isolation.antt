-- ===== src/Fpu/Isolation.antt =====
-- A task finds the registers of the FPU as it has left them.
use libhermit.Base.{ℕ, ◌≡◌, ◌≢◌, refl, sym, ap, ◌∙◌, Bool, true, false, ◌&&◌, not, arith}
use libhermit.Fpu.Defs.{Fpu, current, Move}
use libhermit.Fpu.Moves.{Inv, view, is_touched, Move-Inv, Move-view}

module _ (initial core : ℕ) where
  -- Any number of steps.
  pub data Run (f : Fpu) : Fpu → Type 0 where
    stay : Run f f
    next : {g h : Fpu} → Run f g → Move initial core g h → Run f h

  abbrev pub avoids : ℕ → {f g : Fpu} → Run f g → Bool
  avoids t stay = true
  avoids t (next r m) = avoids t r && not (is_touched initial core t m)

  Run-Inv : {f g : Fpu} → Run f g → Inv initial core f → Inv initial core g
  Run-Inv stay v = v
  Run-Inv (next r m) v = Move-Inv initial core m (Run-Inv r v)

  -- Only what the task computes itself, and the end of its slot, changes the contents that it sees.
  Run-view :
      {f g : Fpu} (r : Run f g) (t : ℕ)
      → t ≢ 0
      → Inv initial core f
      → avoids t r ≡ true
      → view initial core g t ≡ view initial core f t
  Run-view stay t z v a = refl
  Run-view (next r m) t z v a =
      Move-view initial core m t z (Run-Inv r v) (ground arith) ∙ Run-view r t z v (ground arith)

  running-view :
      (f : Fpu)
      → Inv initial core f
      → f.switched core ≡ false
      → view initial core f (current core f) ≡ f.regs core
  running-view f v s = ground (arith, v.mine)

  -- From a state that satisfies the invariant, in which the task `t`, not the idle task 0, runs and
  -- may use the FPU: after any steps in which `t` does not compute and is not cleaned up, whatever
  -- other tasks have computed, if `t` runs again and may use the FPU, the registers are as they
  -- were.
  pub Run-isolated :
      {f g : Fpu} (r : Run f g) (t : ℕ)
      → t ≢ 0
      → Inv initial core f
      → avoids t r ≡ true
      → f.switched core ≡ false
      → current core f ≡ t
      → g.switched core ≡ false
      → current core g ≡ t
      → g.regs core ≡ f.regs core
  Run-isolated {f} {g} r t z v a s e s' e' =
      sym (running-view g (Run-Inv r v) s')
      ∙ ap (view initial core g) e'
      ∙ Run-view r t z v a
      ∙ sym (ap (view initial core f) e)
      ∙ running-view f v s
