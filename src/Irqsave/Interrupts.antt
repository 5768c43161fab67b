-- ===== src/Irqsave/Interrupts.antt =====
-- The interrupts are off while the lock is held.
use libhermit.Base.{
  ℕ, zero, suc, ◌<◌, ◌≤◌, ◌^◌, ◌≡◌, refl, sym, ap, subst, inl, inr, Bool, true, false, not, ◌&&◌,
  ◌||◌, if◌then◌else◌, ◌==◌, ==_iff, arith, Bool-cases,
}
use libhermit.Spin.Safety.{opening_outermost}
use libhermit.Irqsave.Lock.{
  IrqLock, Pc, between, entered, raising, checked, spinning, won, noted, owned, lowering, testing,
  clearing, opening, enabling, Move, disable, check, nest, raise, take, wait, win, note, own, count,
  lower, lowered, keep, leave, clear, release, enable, System, pick, other, Reach, start, later,
}
use libhermit.Irqsave.Refine.{forget, Reach-plain}

-- The interrupt flag of a task that is outside both functions may be anything if it does not hold
-- the lock; it is off everywhere else, and only the outermost unlock comes to the last access.
abbrev pub IsDisabled : Pc → Bool → Type 0
IsDisabled (between zero) on = Unit
IsDisabled (enabling d) on = (d ≡ 0) × (on ≡ false)
IsDisabled _ on = on ≡ false

move-IsDisabled :
    {max i : ℕ} {s l : IrqLock} {on on' : Bool} {p q : Pc}
    → Move max i s on p l on' q
    → ((d : ℕ) → p ≡ opening d → d ≡ 0)
    → IsDisabled p on
    → IsDisabled q on'
move-IsDisabled disable o h = refl
move-IsDisabled (check ne) o h = h
move-IsDisabled (nest e l) o h = h
move-IsDisabled raise o h = h
move-IsDisabled take o h = h
move-IsDisabled (wait ne) o h = h
move-IsDisabled (win e) o h = h
move-IsDisabled note o h = h
move-IsDisabled own o h = h
move-IsDisabled count o h = h
move-IsDisabled lower o h = h
move-IsDisabled lowered o h = h
move-IsDisabled (keep {d = zero} ne) o h = tt
move-IsDisabled (keep {d = suc d} ne) o h = h
move-IsDisabled (leave e) o h = h
move-IsDisabled clear o h = h
move-IsDisabled (release {d}) o h = (o d refl, h)
move-IsDisabled (enable {d = zero}) o h = tt
move-IsDisabled (enable {d = suc d}) o h = absurd (omega (arith, h.0))

abbrev pub is_outside : Pc → Bool
is_outside (between zero) = true
is_outside _ = false

-- Other code writes `on` to the interrupt flag of a task at `p`.
other-IsDisabled :
    (p : Pc) (on on' : Bool) → (not on' || is_outside p) ≡ true → IsDisabled p on → IsDisabled p on'
other-IsDisabled (between zero) on on' o h = tt
other-IsDisabled (between (suc d)) on on' o h = ground arith
other-IsDisabled (entered d f) on on' o h = ground arith
other-IsDisabled (raising d c) on on' o h = ground arith
other-IsDisabled (checked d f) on on' o h = ground arith
other-IsDisabled (spinning d t f) on on' o h = ground arith
other-IsDisabled (won d f) on on' o h = ground arith
other-IsDisabled (noted d) on on' o h = ground arith
other-IsDisabled (owned d) on on' o h = ground arith
other-IsDisabled (lowering d c) on on' o h = ground arith
other-IsDisabled (testing d) on on' o h = ground arith
other-IsDisabled (clearing d) on on' o h = ground arith
other-IsDisabled (opening d) on on' o h = ground arith
other-IsDisabled (enabling d) on on' o h = (h.0, ground arith)

module _ {max n : ℕ} {irq : ℕ → Bool} where
  -- Other code has enabled the interrupts of a core only while its task was outside both functions
  -- and did not hold the lock.
  abbrev pub is_undisturbed : {s : System} → Reach max n irq s → Bool
  is_undisturbed start = true
  is_undisturbed (later r (pick i lt m)) = is_undisturbed r
  is_undisturbed (later {s} r (other i on lt)) = is_undisturbed r && (not on || is_outside (s.pc i))

module _ {max n : ℕ} {irq : ℕ → Bool} (known : n ≤ max) (few : n < 2 ^ 64) where
  -- At most 2 ^ 64 - 1 tasks, each below `max_tasks`, start from `spinlock_irqsave_init`, with any
  -- interrupt flags, and nest their calls fewer than 2 ^ 32 deep. If other code, such as the unlock
  -- of a second irqsave lock, never enables the interrupts of a core whose task holds the lock or
  -- is in one of its functions, then in any interleaving of the accesses, the interrupts of a
  -- task's core are off while the task holds the lock or is between the first and the last access
  -- of one of the two functions.
  pub Reach-IsDisabled :
      {s : System} (r : Reach max n irq s)
      → is_undisturbed r ≡ true
      → (i : ℕ) → IsDisabled (s.pc i) (s.irq i)
  Reach-IsDisabled start u i = tt
  Reach-IsDisabled (later {s} r (pick j {on} {p = q} lt m)) u i = elim (Bool-cases (j == i)) [
    | inl e ↦
        subst (λ b. IsDisabled (if b then q else s.pc i) (if b then on else s.irq i)) (sym e)
          (move-IsDisabled m (λ d e. opening_outermost known few (Reach-plain r) j d (ap forget e))
            (Reach-IsDisabled r u j))
    | inr n ↦
        subst (λ b. IsDisabled (if b then q else s.pc i) (if b then on else s.irq i)) (sym n)
          (Reach-IsDisabled r u i)
  ]
  Reach-IsDisabled (later {s} r (other j on lt)) u i = elim (Bool-cases (j == i)) [
    | inl e ↦
        subst (λ b. IsDisabled (s.pc i) (if b then on else s.irq i)) (sym e)
          (subst (λ (k : ℕ). IsDisabled (s.pc k) on) ((==_iff j i).0 e)
            (other-IsDisabled (s.pc j) (s.irq j) on (ground arith)
              (Reach-IsDisabled r (ground arith) j)))
    | inr n ↦
        subst (λ b. IsDisabled (s.pc i) (if b then on else s.irq i)) (sym n)
          (Reach-IsDisabled r (ground arith) i)
  ]
