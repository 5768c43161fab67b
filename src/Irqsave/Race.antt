-- ===== src/Irqsave/Race.antt =====
-- `spinlock_irqsave_unlock` reads `s->flags` after it has let the next task in.
use libhermit.Base.{ℕ, ◌<◌, ◌≡◌, Bool, false, ◌==◌, update}
use libhermit.Irqsave.Lock.{between, won, noted, enabling, irq_nested_enable, System, Reach}

module _ {max n : ℕ} {irq : ℕ → Bool} {s : System} (r : Reach max n irq s) (i j d : ℕ) (f : Bool)
    (i_in : i < n) (j_in : j < n) (other : (j == i) ≡ false) (leaving : s.pc i ≡ enabling 0)
    (next : s.pc j ≡ won d f) where
  -- The next task has stored its flags.
  abbrev stored : System
  stored = record {
    shared = record s.shared { flags = f };
    irq = update s.irq j (s.irq j);
    pc = update s.pc j (noted d);
  }

  abbrev left : System
  left = record stored {
    irq = update stored.irq i (irq_nested_enable f (stored.irq i));
    pc = update stored.pc i (between 0);
  }
