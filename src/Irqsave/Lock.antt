-- ===== src/Irqsave/Lock.antt =====
-- include/hermit/spinlock.h: `spinlock_irqsave_t`, `spinlock_irqsave_lock` and
-- `spinlock_irqsave_unlock`, an access to the shared lock, or to the interrupt flag of the core, at
-- a time. The task `i` runs on a core of its own, whose interrupt flag is `on`; irq_nested_disable
-- and irq_nested_enable (arch/x86_64/include/asm/irqflags.h) read and write it.
use libhermit.Base.{
  ℕ, suc, ◌+◌, ◌-◌, ◌%◌, ◌^◌, ◌<◌, ◌≡◌, ◌≢◌, Bool, true, false, if◌then◌else◌, update,
}
use libhermit.Spin.Lock.{Lock, spinlock_init}

pub record IrqLock : Type 0 where
  pub lock : Lock
  pub flags : Bool

-- `spinlock_irqsave_init`
abbrev pub spinlock_irqsave_init : ℕ → IrqLock
spinlock_irqsave_init max_tasks = record { lock = spinlock_init max_tasks; flags = false }

unfoldable pub spinlock_irqsave_destroy : ℕ → IrqLock → IrqLock
spinlock_irqsave_destroy max_tasks s = record {
  lock = record s.lock { owner = max_tasks; counter = 0 };
  flags = false;
}

abbrev pub irq_nested_enable : Bool → Bool → Bool
irq_nested_enable was_enabled on = if was_enabled then true else on

-- Where a task stands, with its locals; `f` is what irq_nested_disable has returned. The first
-- number is how many calls of `spinlock_irqsave_lock` it has not undone.
pub data Pc : Type 0 where
  between : ℕ → Pc  -- outside both functions
  entered : ℕ → Bool → Pc  -- the interrupts are disabled
  raising : (depth c : ℕ) → Pc  -- in `s->counter++`, which has read `c`
  checked : ℕ → Bool → Pc  -- the owner was another one
  spinning : (depth ticket : ℕ) → Bool → Pc
  won : ℕ → Bool → Pc  -- before `s->flags` is set
  noted : ℕ → Pc  -- before `s->owner` is set
  owned : ℕ → Pc  -- before `s->counter` is set
  lowering : (depth c : ℕ) → Pc  -- in `s->counter--`, which has read `c`
  testing : ℕ → Pc  -- before the test of `s->counter`
  clearing : ℕ → Pc  -- before `s->owner` is reset
  opening : ℕ → Pc  -- before `s->dequeue` is raised
  enabling : ℕ → Pc  -- before irq_nested_enable of `s->flags`

abbrev pub with_owner : ℕ → IrqLock → IrqLock
with_owner i s = record s { lock = record s.lock { owner = i } }

abbrev pub with_counter : ℕ → IrqLock → IrqLock
with_counter c s = record s { lock = record s.lock { counter = c } }

-- One access of the task `i`: from a place, to the lock, the interrupt flag and the place after it.
pub data Move (max_tasks i : ℕ) (s : IrqLock) (on : Bool) : Pc → IrqLock → Bool → Pc → Type 0 where
  disable : {d : ℕ} → Move max_tasks i s on (between d) s false (entered d on)
  check :
      {d : ℕ} {f : Bool} → s.lock.owner ≢ i → Move max_tasks i s on (entered d f) s on (checked d f)
  nest :
      {d : ℕ} {f : Bool}
      → s.lock.owner ≡ i
      → suc d < 2 ^ 32
      → Move max_tasks i s on (entered d f) s on (raising d s.lock.counter)
  raise :
      {d c : ℕ}
      → Move max_tasks i s on (raising d c) (with_counter ((c + 1) % 2 ^ 32) s) on (between (suc d))
  take :
      {d : ℕ} {f : Bool}
      → Move max_tasks i s on
          (checked d f)
          (record s { lock = record s.lock { queue = (s.lock.queue + 1) % 2 ^ 64 } })
          on
          (spinning d ((s.lock.queue + 1) % 2 ^ 64) f)
  wait :
      {d t : ℕ} {f : Bool}
      → s.lock.dequeue ≢ t
      → Move max_tasks i s on (spinning d t f) s on (spinning d t f)
  win :
      {d t : ℕ} {f : Bool}
      → s.lock.dequeue ≡ t
      → Move max_tasks i s on (spinning d t f) s on (won d f)
  note : {d : ℕ} {f : Bool} → Move max_tasks i s on (won d f) (record s { flags = f }) on (noted d)
  own : {d : ℕ} → Move max_tasks i s on (noted d) (with_owner i s) on (owned d)
  count : {d : ℕ} → Move max_tasks i s on (owned d) (with_counter 1 s) on (between (suc d))
  lower : {d : ℕ} → Move max_tasks i s on (between (suc d)) s on (lowering d s.lock.counter)
  lowered :
      {d c : ℕ}
      → Move max_tasks i s on
          (lowering d c)
          (with_counter ((c + 2 ^ 32 - 1) % 2 ^ 32) s)
          on
          (testing d)
  keep : {d : ℕ} → s.lock.counter ≢ 0 → Move max_tasks i s on (testing d) s on (between d)
  leave : {d : ℕ} → s.lock.counter ≡ 0 → Move max_tasks i s on (testing d) s on (clearing d)
  clear : {d : ℕ} → Move max_tasks i s on (clearing d) (with_owner max_tasks s) on (opening d)
  release :
      {d : ℕ}
      → Move max_tasks i s on
          (opening d)
          (record s { lock = record s.lock { dequeue = (s.lock.dequeue + 1) % 2 ^ 64 } })
          on
          (enabling d)
  enable : {d : ℕ} → Move max_tasks i s on (enabling d) s (irq_nested_enable s.flags on) (between d)

pub record System : Type 0 where
  pub shared : IrqLock
  pub irq : ℕ → Bool
  pub pc : ℕ → Pc

-- The accesses of `n` tasks, in any order. Other code, such as the functions of another irqsave
-- lock that the task uses, writes the interrupt flag of the task's core.
pub data Step (max_tasks n : ℕ) (s : System) : System → Type 0 where
  pick :
      (i : ℕ) {l : IrqLock} {on : Bool} {p : Pc}
      → i < n
      → Move max_tasks i s.shared (s.irq i) (s.pc i) l on p
      → Step max_tasks n s (record { shared = l; irq = update s.irq i on; pc = update s.pc i p })
  other : (i : ℕ) (on : Bool) → i < n → Step max_tasks n s (record s { irq = update s.irq i on })

-- The cores have the interrupt flags `irq`.
abbrev pub init : ℕ → (ℕ → Bool) → System
init max_tasks irq = record {
  shared = spinlock_irqsave_init max_tasks;
  irq = irq;
  pc = λ i. between 0;
}

pub data Reach (max_tasks n : ℕ) (irq : ℕ → Bool) : System → Type 0 where
  start : Reach max_tasks n irq (init max_tasks irq)
  later : {s t : System} → Reach max_tasks n irq s → Step max_tasks n s t → Reach max_tasks n irq t
