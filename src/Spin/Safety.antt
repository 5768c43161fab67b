-- ===== src/Spin/Safety.antt =====
-- What holds whatever the tasks do.
use libhermit.Base.{
  ℕ, zero, suc, ◌+◌, ◌%◌, ◌^◌, ◌≤◌, ◌<◌, ◌≡◌, refl, sym, ap, subst, ◌∙◌, ◌⊎◌, true, false, List, [],
  ◌∷◌, arith, ◌==◌, ==_iff, mem, Bool-cases, inl, inr,
}
use libhermit.Spin.Lock.{
  Lock, Pc, between, raising, checked, spinning, won, owned, lowering, testing, clearing, opening,
  System, pick, Reach, start, later, init, critical,
}
use libhermit.Spin.Inv.{Front, IsOut, IsWaiting, Waiting, Holds, Inv}
use libhermit.Spin.Moves.{Move-Inv}

pub init-Inv : (max n : ℕ) → n ≤ max → n < 2 ^ 64 → Inv max n (init max) []
init-Inv max n k f = record {
  few = f;
  known = k;
  distinct = tt;
  ids = λ i m. absurd (ground arith);
  served = omega arith;
  handed = omega arith;
  out = λ i m. refl;
  front = refl;
}

-- In every reachable state, the tasks with a ticket stand in some queue.
pub Reach-Inv :
    {max n : ℕ} {s : System}
    → n ≤ max
    → n < 2 ^ 64
    → Reach max n s
    → (order : List ℕ) × Inv max n s order
Reach-Inv {max} {n} k f start = ([], init-Inv max n k f)
Reach-Inv k f (later r (pick i lt mv)) =
    let (order, inv) = Reach-Inv k f r in (_, Move-Inv inv lt mv)

Waiting-not_critical :
    (pc : ℕ → Pc) (i t : ℕ) (xs : List ℕ)
    → Waiting pc t xs
    → mem i xs ≡ true
    → critical (pc i) ≡ false
Waiting-not_critical pc i t [] w m = ground arith
Waiting-not_critical pc i t (x ∷ xs) w m = elim (Bool-cases (x == i)) [
  | inl here ↦ ap (λ j. critical (pc j)) (sym ((==_iff x i).0 here)) ∙ waits (pc x) w.0
  | inr there ↦ Waiting-not_critical pc i ((t + 1) % 2 ^ 64) xs w.1 (ground arith)
]
  where
    waits : (p : Pc) → IsWaiting p t → critical p ≡ false
    waits p h = ground arith

IsOut-not_critical : (p : Pc) → IsOut p → critical p ≡ false
IsOut-not_critical (between zero) h = refl
IsOut-not_critical (between (suc d)) h = absurd (omega arith)
IsOut-not_critical (checked d) h = refl
IsOut-not_critical (raising d c) h = absurd h
IsOut-not_critical (spinning d t) h = absurd h
IsOut-not_critical (won d) h = absurd h
IsOut-not_critical (owned d) h = absurd h
IsOut-not_critical (lowering d c) h = absurd h
IsOut-not_critical (testing d) h = absurd h
IsOut-not_critical (clearing d) h = absurd h
IsOut-not_critical (opening d) h = absurd h

-- A task past the waiting loop is the first one of the queue.
critical-first :
    {max n : ℕ} {s : System} {order : List ℕ}
    → Inv max n s order
    → (i : ℕ) → critical (s.pc i) ≡ true
    → (xs : List ℕ) × (order ≡ i ∷ xs)
critical-first {max} {n} {s} {order} inv i c = first order inv
  where
    first : (ids : List ℕ) → Inv max n s ids → (xs : List ℕ) × (ids ≡ i ∷ xs)
    first [] v = absurd (ground (arith, IsOut-not_critical (s.pc i) (v.out i refl)))
    first (x ∷ xs) v = elim (Bool-cases (x == i)) [
      | inl here ↦ (xs, ap (λ z. z ∷ xs) ((==_iff x i).0 here))
      | inr there ↦ elim (Bool-cases (mem i xs)) [
        | inl m ↦ absurd (
            ground
              (arith, Waiting-not_critical s.pc i ((s.lock.dequeue + 1) % 2 ^ 64) xs v.front.1 m))
        | inr m ↦ absurd (ground (arith, IsOut-not_critical (s.pc i) (v.out i (ground arith))))
      ]
    ]

first_lem :
    (max : ℕ) (l : Lock) (x : ℕ) (p : Pc)
    → Holds max l x p
    → (critical p ≡ true) ⊎ (p ≡ spinning 0 l.dequeue)
first_lem max l x (between zero) h = absurd (omega arith)
first_lem max l x (between (suc d)) h = inl refl
first_lem max l x (checked d) h = absurd h
first_lem max l x (raising d c) h = inl refl
first_lem max l x (spinning d t) h = inr (ap (λ e. spinning e t) h.0 ∙ ap (spinning 0) h.1)
first_lem max l x (won d) h = inl refl
first_lem max l x (owned d) h = inl refl
first_lem max l x (lowering d c) h = inl refl
first_lem max l x (testing d) h = inl refl
first_lem max l x (clearing d) h = inl refl
first_lem max l x (opening d) h = inl refl

module _ {max n : ℕ} {s : System} (known : n ≤ max) (few : n < 2 ^ 64) (r : Reach max n s) where
  -- At most 2 ^ 64 - 1 tasks, each below `max_tasks`, start from `spinlock_init` and nest their
  -- calls fewer than 2 ^ 32 deep: two of them are never past the waiting loop of the same lock,
  -- whatever accesses have been made in whatever order.
  pub mutual_exclusion : (i j : ℕ) → critical (s.pc i) ≡ true → critical (s.pc j) ≡ true → i ≡ j
  mutual_exclusion i j a b =
      let (order, inv) = Reach-Inv known few r in
      let (xs, p) = critical-first inv i a in
      let (ys, q) = critical-first inv j b in head_eq (sym p ∙ q)
    where
      head_eq : {xs ys : List ℕ} → i ∷ xs ≡ j ∷ ys → i ≡ j
      head_eq e = cc

  -- With at most 2 ^ 64 - 1 tasks, each below `max_tasks`, that start from `spinlock_init`: a task
  -- that has made `d + 1` calls of `spinlock_lock` more than of `spinlock_unlock`, and is in
  -- neither, owns the lock, and the counter of the lock is `d + 1`.
  pub owner_counts :
      (i d : ℕ) → s.pc i ≡ between (suc d) → (s.lock.owner ≡ i) × (s.lock.counter ≡ suc d)
  owner_counts i d e =
      let (order, inv) = Reach-Inv known few r in
      let (xs, p) = critical-first inv i (ap critical e) in
      let h = subst (Holds max s.lock i) e ((subst (Inv max n s) p inv).front.0) in (h.2, h.3)

  -- With at most 2 ^ 64 - 1 tasks, each below `max_tasks`, that start from `spinlock_init`
  -- and nest their calls fewer than 2 ^ 32 deep: while a task waits, some task is past the waiting
  -- loop, or waits for the ticket that is served and passes its next test.
  pub no_deadlock :
      (i d t : ℕ)
      → s.pc i ≡ spinning d t
      → (j : ℕ) × ((critical (s.pc j) ≡ true) ⊎ (s.pc j ≡ spinning 0 s.lock.dequeue))
  no_deadlock i d t e = let (order, inv) = Reach-Inv known few r in found order inv
    where
      found :
          (ids : List ℕ)
          → Inv max n s ids
          → (j : ℕ) × ((critical (s.pc j) ≡ true) ⊎ (s.pc j ≡ spinning 0 s.lock.dequeue))
      found [] v = absurd (subst IsOut e (v.out i refl))
      found (x ∷ xs) v = (x, first_lem max s.lock x (s.pc x) v.front.0)

  -- The lock is released by the outermost unlock only.
  pub opening_outermost : (i d : ℕ) → s.pc i ≡ opening d → d ≡ 0
  opening_outermost i d e =
      let (order, inv) = Reach-Inv known few r in
      let (xs, p) = critical-first inv i (ap critical e) in
      let front : Front max s.lock s.pc (i ∷ xs) = subst (Front max s.lock s.pc) p inv.front in
      (subst (Holds max s.lock i) e front.0).0
