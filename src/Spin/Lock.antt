-- ===== src/Spin/Lock.antt =====
-- include/hermit/spinlock.h: `spinlock_t`, `spinlock_lock` and `spinlock_unlock`, an access to the
-- shared lock at a time. A task is a number below `max_tasks`; its calls nest, and it calls
-- `spinlock_unlock` only while it holds the lock.
use libhermit.Base.{ℕ, zero, suc, ◌+◌, ◌-◌, ◌%◌, ◌^◌, ◌<◌, ◌≡◌, ◌≢◌, Bool, true, false, update}

pub record Lock : Type 0 where
  pub queue : ℕ
  pub dequeue : ℕ
  pub owner : ℕ
  pub counter : ℕ

-- `spinlock_init`
abbrev pub spinlock_init : ℕ → Lock
spinlock_init max_tasks = record { queue = 0; dequeue = 1; owner = max_tasks; counter = 0 }

unfoldable pub spinlock_destroy : ℕ → Lock → Lock
spinlock_destroy max_tasks s = record s { owner = max_tasks; counter = 0 }

-- Where a task stands, with its locals. The first number is how many calls of `spinlock_lock` it
-- has not undone.
pub data Pc : Type 0 where
  between : ℕ → Pc  -- outside both functions
  raising : (depth c : ℕ) → Pc  -- in `s->counter++`, which has read `c`
  checked : ℕ → Pc  -- the owner was another one
  spinning : (depth ticket : ℕ) → Pc
  won : ℕ → Pc  -- before `s->owner` is set
  owned : ℕ → Pc  -- before `s->counter` is set
  lowering : (depth c : ℕ) → Pc  -- in `s->counter--`, which has read `c`
  testing : ℕ → Pc  -- before the test of `s->counter`
  clearing : ℕ → Pc  -- before `s->owner` is reset
  opening : ℕ → Pc  -- before `s->dequeue` is raised

-- One access of the task `i`.
pub data Move (max_tasks i : ℕ) (s : Lock) : Pc → Lock → Pc → Type 0 where
  check : {d : ℕ} → s.owner ≢ i → Move max_tasks i s (between d) s (checked d)
  nest :
      {d : ℕ}
      → s.owner ≡ i
      → suc d < 2 ^ 32
      → Move max_tasks i s (between d) s (raising d s.counter)
  raise :
      {d c : ℕ}
      → Move max_tasks i s (raising d c) (record s { counter = (c + 1) % 2 ^ 32 }) (between (suc d))
  take :
      {d : ℕ}
      → Move max_tasks i s
          (checked d)
          (record s { queue = (s.queue + 1) % 2 ^ 64 })
          (spinning d ((s.queue + 1) % 2 ^ 64))
  wait : {d t : ℕ} → s.dequeue ≢ t → Move max_tasks i s (spinning d t) s (spinning d t)
  win : {d t : ℕ} → s.dequeue ≡ t → Move max_tasks i s (spinning d t) s (won d)
  own : {d : ℕ} → Move max_tasks i s (won d) (record s { owner = i }) (owned d)
  count : {d : ℕ} → Move max_tasks i s (owned d) (record s { counter = 1 }) (between (suc d))
  lower : {d : ℕ} → Move max_tasks i s (between (suc d)) s (lowering d s.counter)
  lowered :
      {d c : ℕ}
      → Move max_tasks i s
          (lowering d c)
          (record s { counter = (c + 2 ^ 32 - 1) % 2 ^ 32 })
          (testing d)
  keep : {d : ℕ} → s.counter ≢ 0 → Move max_tasks i s (testing d) s (between d)
  leave : {d : ℕ} → s.counter ≡ 0 → Move max_tasks i s (testing d) s (clearing d)
  clear : {d : ℕ} → Move max_tasks i s (clearing d) (record s { owner = max_tasks }) (opening d)
  release :
      {d : ℕ}
      → Move max_tasks i s (opening d) (record s { dequeue = (s.dequeue + 1) % 2 ^ 64 }) (between d)

pub record System : Type 0 where
  pub lock : Lock
  pub pc : ℕ → Pc

-- The accesses of `n` tasks, in any order.
pub data Step (max_tasks n : ℕ) (s : System) : System → Type 0 where
  pick :
      (i : ℕ) {l : Lock} {p : Pc}
      → i < n
      → Move max_tasks i s.lock (s.pc i) l p
      → Step max_tasks n s (record { lock = l; pc = update s.pc i p })

abbrev pub init : ℕ → System
init max_tasks = record { lock = spinlock_init max_tasks; pc = λ i. between 0 }

pub data Reach (max_tasks n : ℕ) : System → Type 0 where
  start : Reach max_tasks n (init max_tasks)
  later : {s t : System} → Reach max_tasks n s → Step max_tasks n s t → Reach max_tasks n t

-- From the end of the waiting loop to the last access of the outermost `spinlock_unlock`.
abbrev pub critical : Pc → Bool
critical (between zero) = false
critical (checked _) = false
critical (spinning _ _) = false
critical _ = true
