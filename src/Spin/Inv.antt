-- ===== src/Spin/Inv.antt =====
-- The invariant of the lock: the tasks that hold a ticket stand in a queue, and only the first one
-- can be past the waiting loop.
use libhermit.Base.{
  ℕ, suc, ◌+◌, ◌-◌, ◌%◌, ◌^◌, ◌≤◌, ◌<◌, ◌≡◌, true, false, List, [], ◌∷◌, mem, IsDistinct, length,
}
use libhermit.Spin.Lock.{
  Lock, Pc, between, raising, checked, spinning, won, owned, lowering, testing, clearing, opening,
  System,
}

-- A task without a ticket.
abbrev pub IsOut : Pc → Type 0
IsOut (between d) = d ≡ 0
IsOut (checked d) = d ≡ 0
IsOut _ = ⊥

-- A task that waits for the ticket `t`.
abbrev pub IsWaiting : Pc → ℕ → Type 0
IsWaiting (spinning d t') t = (d ≡ 0) × (t' ≡ t)
IsWaiting _ t = ⊥

-- The tasks wait for the tickets from `t` on.
abbrev pub Waiting : (ℕ → Pc) → ℕ → List ℕ → Type 0
Waiting pc t [] = Unit
Waiting pc t (x ∷ xs) = IsWaiting (pc x) t × Waiting pc ((t + 1) % 2 ^ 64) xs

-- What the position of the first task `x` says of the lock.
abbrev pub Holds : ℕ → Lock → ℕ → Pc → Type 0
Holds max l x (between d) = (0 < d) × (d < 2 ^ 32) × (l.owner ≡ x) × (l.counter ≡ d)
Holds max l x (raising d c) = (0 < d) × (suc d < 2 ^ 32) × (l.owner ≡ x) × (c ≡ d) × (l.counter ≡ d)
Holds max l x (checked d) = ⊥
Holds max l x (spinning d t) = (d ≡ 0) × (t ≡ l.dequeue) × (l.owner ≡ max)
Holds max l x (won d) = (d ≡ 0) × (l.owner ≡ max)
Holds max l x (owned d) = (d ≡ 0) × (l.owner ≡ x)
Holds max l x (lowering d c) = (suc d < 2 ^ 32) × (l.owner ≡ x) × (c ≡ suc d) × (l.counter ≡ suc d)
Holds max l x (testing d) = (suc d < 2 ^ 32) × (l.owner ≡ x) × (l.counter ≡ d)
Holds max l x (clearing d) = (d ≡ 0) × (l.owner ≡ x)
Holds max l x (opening d) = (d ≡ 0) × (l.owner ≡ max)

abbrev pub Front : ℕ → Lock → (ℕ → Pc) → List ℕ → Type 0
Front max l pc [] = l.owner ≡ max
Front max l pc (x ∷ xs) = Holds max l x (pc x) × Waiting pc ((l.dequeue + 1) % 2 ^ 64) xs

-- `order` are the tasks with a ticket, the next one to be served first.
pub record Inv (max n : ℕ) (s : System) (order : List ℕ) : Type 0 where
  pub few : n < 2 ^ 64
  pub known : n ≤ max
  pub distinct : IsDistinct order
  pub ids : (i : ℕ) → mem i order ≡ true → i < n
  pub served : s.lock.dequeue < 2 ^ 64
  pub handed : s.lock.queue ≡ (s.lock.dequeue + length order + 2 ^ 64 - 1) % 2 ^ 64
  pub out : (i : ℕ) → mem i order ≡ false → IsOut (s.pc i)
  pub front : Front max s.lock s.pc order
