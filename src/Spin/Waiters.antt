-- ===== src/Spin/Waiters.antt =====
-- What an access does to the tasks that wait, and to the first task.
use libhermit.Base.{
  ℕ, suc, ◌+◌, ◌%◌, ◌^◌, ◌<◌, ◌≡◌, ◌≢◌, refl, subst, true, false, List, [], ◌∷◌, ◌++◌, arith, ◌==◌,
  ==_iff, update, mem, length, Bool-cases, inl, inr,
}
use libhermit.Spin.Lock.{
  Lock, Pc, between, opening, System, Move, check, nest, raise, take, wait, win, own, count, lower,
  lowered, keep, leave, clear, release,
}
use libhermit.Spin.Inv.{IsWaiting, Waiting, Holds, Front}

abbrev pub rest_of : List ℕ → List ℕ
rest_of [] = []
rest_of (x ∷ xs) = xs

-- The queue after an access of the task `i`.
abbrev pub after : {max i : ℕ} {l l' : Lock} {p p' : Pc} → Move max i l p l' p' → List ℕ → List ℕ
after {i} take order = order ++ i ∷ []
after release order = rest_of order
after _ order = order

pub Waiting-frame :
    (pc : ℕ → Pc) (i : ℕ) (p : Pc) (t : ℕ) (xs : List ℕ)
    → mem i xs ≡ false
    → Waiting pc t xs
    → Waiting (update pc i p) t xs
Waiting-frame pc i p t [] m w = w
Waiting-frame pc i p t (x ∷ xs) m w =
    let apart : (i == x) ≡ false = ground arith in
    (rw apart w.0, Waiting-frame pc i p ((t + 1) % 2 ^ 64) xs (ground arith) w.1)

pub Waiting-mem :
    (pc : ℕ → Pc) (i t : ℕ) (xs : List ℕ)
    → t < 2 ^ 64
    → mem i xs ≡ true
    → Waiting pc t xs
    → (k : ℕ) × (k < length xs) × IsWaiting (pc i) ((t + k) % 2 ^ 64)
Waiting-mem pc i t [] b m w = absurd (ground arith)
Waiting-mem pc i t (x ∷ xs) b m w = elim (Bool-cases (x == i)) [
  | inl here ↦ (
    0,
    omega arith,
    subst (IsWaiting (pc i)) (omega arith)
        (subst (λ j. IsWaiting (pc j) t) ((==_iff x i).0 here) w.0),
  )
  | inr there ↦
      let (k, l, h) = Waiting-mem pc i ((t + 1) % 2 ^ 64) xs (omega arith) (ground arith) w.1 in
      (suc k, omega arith, subst (IsWaiting (pc i)) (omega arith) h)
]

pub Waiting-snoc :
    (pc : ℕ → Pc) (i t : ℕ) (xs : List ℕ)
    → t < 2 ^ 64
    → Waiting pc t xs
    → IsWaiting (pc i) ((t + length xs) % 2 ^ 64)
    → Waiting pc t (xs ++ i ∷ [])
Waiting-snoc pc i t [] b w h = (subst (IsWaiting (pc i)) (omega arith) h, tt)
Waiting-snoc pc i t (x ∷ xs) b w h = (
  w.0,
  Waiting-snoc pc i ((t + 1) % 2 ^ 64) xs (omega arith) w.1
      (subst (IsWaiting (pc i)) (omega arith) h),
)

-- An access of the first task. Only the release takes it off the queue.
module _ (max i : ℕ) (pc : ℕ → Pc) (xs : List ℕ) (alone : mem i xs ≡ false) where
  pub Front-release :
      (l : Lock) (d : ℕ)
      → Holds max l i (opening d)
      → Waiting pc ((l.dequeue + 1) % 2 ^ 64) xs
      → Front max (record l { dequeue = (l.dequeue + 1) % 2 ^ 64 }) (update pc i (between d)) xs
  Front-release l d h w = front xs alone w
    where
      front :
          (ys : List ℕ)
          → mem i ys ≡ false
          → Waiting pc ((l.dequeue + 1) % 2 ^ 64) ys
          → Front max (record l { dequeue = (l.dequeue + 1) % 2 ^ 64 }) (update pc i (between d)) ys
      front [] m u = h.1
      front (y ∷ ys) m u =
          let apart : (i == y) ≡ false = ground arith in
          (
            rw apart (first (pc y) u.0),
            Waiting-frame pc i (between d) (((l.dequeue + 1) % 2 ^ 64 + 1) % 2 ^ 64) ys
                (ground arith) u.1,
          )
        where
          first :
              (p : Pc)
              → IsWaiting p ((l.dequeue + 1) % 2 ^ 64)
              → Holds max (record l { dequeue = (l.dequeue + 1) % 2 ^ 64 }) y p
          first p q = ground arith

-- What an access of the first task makes of the lock, when it is not the release.
pub record Held (max i : ℕ) (l l' : Lock) (p' : Pc) : Type 0 where
  pub same_queue : l'.queue ≡ l.queue
  pub same_dequeue : l'.dequeue ≡ l.dequeue
  pub holds : Holds max l' i p'

module _ {max i : ℕ} {l : Lock} where
  pub Move-Held :
      {l' : Lock} {p p' : Pc} (mv : Move max i l p l' p')
      → Holds max l i p
      → ((d : ℕ) → p ≢ opening d)
      → Held max i l l' p'
  Move-Held (check n) h o = absurd (n h.2)
  Move-Held (nest e b) h o = ground arith
  Move-Held raise h o = ground arith
  Move-Held (wait n) h o = absurd (ground arith)
  Move-Held (win e) h o = ground arith
  Move-Held own h o = ground arith
  Move-Held count h o = ground arith
  Move-Held lower h o = ground arith
  Move-Held lowered h o = ground arith
  Move-Held (keep n) h o = ground arith
  Move-Held (leave e) h o = ground arith
  Move-Held clear h o = ground arith
  Move-Held (release {d}) h o = absurd (o d refl)
  Move-Held take h o = absurd h

-- The state after an access of the task `i`.
abbrev pub moved : System → ℕ → Lock → Pc → System
moved s i l p = record { lock = l; pc = update s.pc i p }
