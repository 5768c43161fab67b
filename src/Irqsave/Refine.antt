-- ===== src/Irqsave/Refine.antt =====
-- The irqsave spinlock without its flags is the spinlock.
use libhermit.Base.{
  ℕ, ◌<◌, ◌≤◌, ◌^◌, ◌≡◌, refl, sym, ap, subst, ◌∙◌, ◌⊎◌, inl, inr, Bool, true, false, if◌then◌else◌,
  ◌==◌, ==_iff, update, fun_ext, Bool-cases,
}
use libhermit.Spin.Lock
use libhermit.Spin.Safety.{mutual_exclusion}
use libhermit.Irqsave.Lock.{
  IrqLock, Pc, between, entered, raising, checked, spinning, won, noted, owned, lowering, testing,
  clearing, opening, enabling, Move, disable, check, nest, raise, take, wait, win, note, own, count,
  lower, lowered, keep, leave, clear, release, enable, System, pick, other, Reach, start, later,
}

-- The place of the task in the spinlock without flags.
abbrev pub forget : Pc → Lock.Pc
forget (between d) = Lock.Pc.between d
forget (entered d f) = Lock.Pc.between d
forget (raising d c) = Lock.Pc.raising d c
forget (checked d f) = Lock.Pc.checked d
forget (spinning d t f) = Lock.Pc.spinning d t
forget (won d f) = Lock.Pc.won d
forget (noted d) = Lock.Pc.won d
forget (owned d) = Lock.Pc.owned d
forget (lowering d c) = Lock.Pc.lowering d c
forget (testing d) = Lock.Pc.testing d
forget (clearing d) = Lock.Pc.clearing d
forget (opening d) = Lock.Pc.opening d
forget (enabling d) = Lock.Pc.between d

abbrev pub plain : System → Lock.System
plain s = record { lock = s.shared.lock; pc = λ i. forget (s.pc i) }

-- A move is a move of the spinlock, or none.
move_plain :
    {max i : ℕ} {s l : IrqLock} {on on' : Bool} {p q : Pc}
    → Move max i s on p l on' q
    → (Lock.Move max i s.lock (forget p) l.lock (forget q))
      ⊎ ((l.lock ≡ s.lock) × (forget q ≡ forget p))
move_plain disable = inr (refl, refl)
move_plain (check ne) = inl (Lock.Move.check ne)
move_plain (nest e h) = inl (Lock.Move.nest e h)
move_plain raise = inl Lock.Move.raise
move_plain take = inl Lock.Move.take
move_plain (wait ne) = inl (Lock.Move.wait ne)
move_plain (win e) = inl (Lock.Move.win e)
move_plain note = inr (refl, refl)
move_plain own = inl Lock.Move.own
move_plain count = inl Lock.Move.count
move_plain lower = inl Lock.Move.lower
move_plain lowered = inl Lock.Move.lowered
move_plain (keep ne) = inl (Lock.Move.keep ne)
move_plain (leave e) = inl (Lock.Move.leave e)
move_plain clear = inl Lock.Move.clear
move_plain release = inl Lock.Move.release
move_plain enable = inr (refl, refl)

forget-update :
    (pc : ℕ → Pc) (i : ℕ) (q : Pc)
    → update (λ j. forget (pc j)) i (forget q) ≡ (λ j. forget (update pc i q j))
forget-update pc i q = fun_ext λ j. commutes (i == j) j
  where
    commutes :
        (b : Bool) (j : ℕ)
        → (if b then forget q else forget (pc j)) ≡ forget (if b then q else pc j)
    commutes true j = refl
    commutes false j = refl

forget-same :
    (pc : ℕ → Pc) (i : ℕ) (q : Pc)
    → forget q ≡ forget (pc i)
    → ◌≡◌ {A = ℕ → Lock.Pc} (λ j. forget (pc j)) (λ j. forget (update pc i q j))
forget-same pc i q e = fun_ext λ j. elim (Bool-cases (i == j)) [
  | inl h ↦
      ap (λ k. forget (pc k)) (sym ((==_iff i j).0 h))
      ∙ sym e
      ∙ ap (λ b. forget (if b then q else pc j)) (sym h)
  | inr h ↦ ap (λ b. forget (if b then q else pc j)) (sym h)
]

module _ {max n : ℕ} {irq : ℕ → Bool} where
  -- Without the flags, what is reachable is reachable with the spinlock.
  pub Reach-plain : {s : System} → Reach max n irq s → Lock.Reach max n (plain s)
  Reach-plain start = Lock.Reach.start
  Reach-plain (later {s} r (pick i {l} {p = q} lt m)) = elim (move_plain m) [
    | inl spin ↦
        subst (λ (pcs : ℕ → Lock.Pc). Lock.Reach max n (record { lock = l.lock; pc = pcs }))
          (forget-update s.pc i q) (Lock.Reach.later (Reach-plain r) (Lock.Step.pick i lt spin))
    | inr (same, stay) ↦
        subst
          (λ (k : Lock.Lock).
            Lock.Reach max n (record { lock = k; pc = λ j. forget (update s.pc i q j) }))
          (sym same)
          (subst
            (λ (pcs : ℕ → Lock.Pc). Lock.Reach max n (record { lock = s.shared.lock; pc = pcs }))
            (forget-same s.pc i q stay) (Reach-plain r))
  ]
  Reach-plain (later r (other i on lt)) = Reach-plain r

  -- At most 2 ^ 64 - 1 tasks, each below `max_tasks`, start from `spinlock_irqsave_init`, with any
  -- interrupt flags, and nest their calls fewer than 2 ^ 32 deep: in any interleaving of their
  -- accesses, whatever else writes the interrupt flags, two of them are never past the waiting loop
  -- of the lock.
  pub irqsave_exclusion :
      {s : System}
      → n ≤ max
      → n < 2 ^ 64
      → Reach max n irq s
      → (i j : ℕ) → Lock.critical (forget (s.pc i)) ≡ true
      → Lock.critical (forget (s.pc j)) ≡ true
      → i ≡ j
  irqsave_exclusion known few r i j a b = mutual_exclusion known few (Reach-plain r) i j a b
