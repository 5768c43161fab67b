-- ===== src/Spin/Moves.antt =====
-- Every access keeps the invariant: a task that takes a ticket goes to the end of the queue, a
-- release takes the first task off, and no other access changes the queue.
use libhermit.Base.{
  ℕ, suc, ◌+◌, ◌%◌, ◌^◌, ◌≤◌, ◌<◌, ◌≡◌, ◌≢◌, refl, sym, ap, ◌∙◌, ◌⊎◌, subst, fun_ext, true, false,
  List, [], ◌∷◌, ◌++◌, arith, ◌==◌, ==_iff, ==-refl, update, mem, mem-append, snoc-IsDistinct,
  IsDistinct-length, length, length-append, Bool-cases, inl, inr,
}
use libhermit.Spin.Lock.{
  Lock, Pc, between, checked, spinning, opening, System, Move, check, nest, raise, take, wait, win,
  own, count, lower, lowered, keep, leave, clear, release,
}
use libhermit.Spin.Inv.{IsOut, IsWaiting, Holds, Front, Inv}
use libhermit.Spin.Waiters.{
  after, Waiting-frame, Waiting-mem, Waiting-snoc, Front-release, Held, Move-Held, moved,
}

module _ {max n : ℕ} {s : System} {i : ℕ} {xs : List ℕ} (inv : Inv max n s (i ∷ xs)) where
  kept-Inv : {l' : Lock} {p' : Pc} → Held max i s.lock l' p' → Inv max n (moved s i l' p') (i ∷ xs)
  kept-Inv {l'} {p'} h = record {
    few = inv.few;
    known = inv.known;
    distinct = inv.distinct;
    ids = inv.ids;
    served = rw h.same_dequeue inv.served;
    handed = rw (h.same_queue, h.same_dequeue) inv.handed;
    out = λ j m. let apart : (i == j) ≡ false = ground arith in rw apart (inv.out j m);
    front = (
      rw (==-refl i) h.holds,
      Waiting-frame s.pc i p' ((l'.dequeue + 1) % 2 ^ 64) xs inv.distinct.0
          (rw h.same_dequeue inv.front.1),
    );
  }

  released-Inv :
      {d : ℕ}
      → s.pc i ≡ opening d
      → Inv max n
          (moved s i (record s.lock { dequeue = (s.lock.dequeue + 1) % 2 ^ 64 }) (between d))
          xs
  released-Inv {d} e =
      let holds : Holds max s.lock i (opening d) = subst (Holds max s.lock i) e inv.front.0 in
      record {
        few = inv.few;
        known = inv.known;
        distinct = inv.distinct.1;
        ids = λ j m. inv.ids j (ground arith);
        served = omega arith;
        handed = omega (arith, inv.handed, inv.served);
        out = λ j m. elim (Bool-cases (i == j)) [
          | inl here ↦ rw here holds.0
          | inr there ↦ rw there (inv.out j (ground arith))
        ];
        front = Front-release max i s.pc xs inv.distinct.0 s.lock d holds inv.front.1;
      }

  first-Inv :
      {l' : Lock} {p p' : Pc}
      → s.pc i ≡ p
      → (mv : Move max i s.lock p l' p') → Inv max n (moved s i l' p') (after mv (i ∷ xs))
  first-Inv e release = released-Inv e
  first-Inv e take = absurd (subst (Holds max s.lock i) e inv.front.0)
  first-Inv e mv =
      kept-Inv (Move-Held mv (subst (Holds max s.lock i) e inv.front.0) (λ d q. ground arith))

-- The invariant under a pointwise equal program counter.
module _ {max n : ℕ} {s : System} {order : List ℕ} (inv : Inv max n s order) (i : ℕ) where
  same_pc : {p : Pc} → s.pc i ≡ p → update s.pc i p ≡ s.pc
  same_pc {p} e = fun_ext (λ j. elim (Bool-cases (i == j)) [
    | inl here ↦ rw here (sym e ∙ ap s.pc ((==_iff i j).0 here))
    | inr there ↦ rw there refl
  ])

  stay-Inv : {p : Pc} → s.pc i ≡ p → Inv max n (moved s i s.lock p) order
  stay-Inv {p} e =
      subst (λ (f : ℕ → Pc). Inv max n (record { lock = s.lock; pc = f }) order) (sym (same_pc e))
        inv

  few_tickets : length order ≤ n
  few_tickets = IsDistinct-length n order inv.distinct inv.ids

-- An access of a task that waits behind the first one: it can only go on waiting.
module _ {max n : ℕ} {s : System} {x : ℕ} {xs : List ℕ} (inv : Inv max n s (x ∷ xs)) (i : ℕ)
    (behind : mem i xs ≡ true) where
  later_ticket : {p : Pc} → s.pc i ≡ p → (t : ℕ) × IsWaiting p t × (s.lock.dequeue ≢ t)
  later_ticket {p} e =
      let (k, l, h) =
        Waiting-mem s.pc i ((s.lock.dequeue + 1) % 2 ^ 64) xs (omega arith) behind inv.front.1 in
      (
        ((s.lock.dequeue + 1) % 2 ^ 64 + k) % 2 ^ 64,
        subst (λ q. IsWaiting q (((s.lock.dequeue + 1) % 2 ^ 64 + k) % 2 ^ 64)) e h,
        λ q. omega (arith, few_tickets inv i, inv.few, inv.served),
      )

  behind-Inv :
      {l' : Lock} {p p' : Pc}
      → s.pc i ≡ p
      → (mv : Move max i s.lock p l' p') → Inv max n (moved s i l' p') (after mv (x ∷ xs))
  behind-Inv e (wait q) = stay-Inv inv i e
  behind-Inv e (win q) = let (t, h, ne) = later_ticket e in absurd (ne (q ∙ h.1))
  behind-Inv e (check q) = absurd ((later_ticket e).1)
  behind-Inv e (nest q b) = absurd ((later_ticket e).1)
  behind-Inv e raise = absurd ((later_ticket e).1)
  behind-Inv e take = absurd ((later_ticket e).1)
  behind-Inv e own = absurd ((later_ticket e).1)
  behind-Inv e count = absurd ((later_ticket e).1)
  behind-Inv e lower = absurd ((later_ticket e).1)
  behind-Inv e lowered = absurd ((later_ticket e).1)
  behind-Inv e (keep q) = absurd ((later_ticket e).1)
  behind-Inv e (leave q) = absurd ((later_ticket e).1)
  behind-Inv e clear = absurd ((later_ticket e).1)
  behind-Inv e release = absurd ((later_ticket e).1)

-- Who owns the lock has a ticket.
Front-owner :
    (max : ℕ) (l : Lock) (pc : ℕ → Pc) (i : ℕ) (order : List ℕ)
    → i < max
    → Front max l pc order
    → l.owner ≡ i
    → mem i order ≡ true
Front-owner max l pc i [] b f e = absurd (omega arith)
Front-owner max l pc i (x ∷ xs) b f e = ground (arith, owner (pc x) f.0)
  where
    owner : (p : Pc) → Holds max l x p → (x ≡ i) ⊎ (l.owner ≡ max)
    owner p h = ground arith

-- An access of a task without a ticket.
module _ {max n : ℕ} {s : System} {order : List ℕ} (inv : Inv max n s order) (i : ℕ) (lt : i < n)
    (alone : mem i order ≡ false) where
  Front-other :
      (l : Lock) (p : Pc) (ids : List ℕ)
      → mem i ids ≡ false
      → Front max l s.pc ids
      → Front max l (update s.pc i p) ids
  Front-other l p [] m f = f
  Front-other l p (x ∷ xs) m f =
      let apart : (i == x) ≡ false = ground arith in
      (rw apart f.0, Waiting-frame s.pc i p ((l.dequeue + 1) % 2 ^ 64) xs (ground arith) f.1)

  checked-Inv : Inv max n (moved s i s.lock (checked 0)) order
  checked-Inv = record {
    few = inv.few;
    known = inv.known;
    distinct = inv.distinct;
    ids = inv.ids;
    served = inv.served;
    handed = inv.handed;
    out = λ j m. elim (Bool-cases (i == j)) [
      | inl here ↦ rw here refl
      | inr there ↦ rw there (inv.out j m)
    ];
    front = Front-other s.lock (checked 0) order alone inv.front;
  }

  abbrev ticket : ℕ
  ticket = (s.lock.queue + 1) % 2 ^ 64

  abbrev given : Lock
  given = record s.lock { queue = ticket }

  Front-queue :
      (q : ℕ) (ids : List ℕ)
      → Front max s.lock s.pc ids
      → Front max (record s.lock { queue = q }) s.pc ids
  Front-queue q [] f = f
  Front-queue q (x ∷ xs) f = (first (s.pc x) f.0, f.1)
    where
      first : (p : Pc) → Holds max s.lock x p → Holds max (record s.lock { queue = q }) x p
      first p h = ground arith

  Front-take :
      (ids : List ℕ)
      → mem i ids ≡ false
      → ticket ≡ (s.lock.dequeue + length ids) % 2 ^ 64
      → Front max given s.pc ids
      → Front max given (update s.pc i (spinning 0 ticket)) (ids ++ i ∷ [])
  Front-take [] m q f = rw (==-refl i) ((refl, omega (arith, inv.served), f), tt)
  Front-take (x ∷ xs) m q f =
      let (first, w) = Front-other given (spinning 0 ticket) (x ∷ xs) m f in
      (
        first,
        Waiting-snoc (update s.pc i (spinning 0 ticket)) i ((s.lock.dequeue + 1) % 2 ^ 64) xs
            (omega arith) w (rw (==-refl i) (refl, omega arith)),
      )

  taken-Inv : Inv max n (moved s i given (spinning 0 ticket)) (order ++ i ∷ [])
  taken-Inv = record {
    few = inv.few;
    known = inv.known;
    distinct = snoc-IsDistinct i order inv.distinct alone;
    ids = λ j m. ground (arith, mem-append j order (i ∷ []), inv.ids j);
    served = inv.served;
    handed = omega (arith, inv.handed, inv.served, length-append order (i ∷ []));
    out = λ j m.
        let apart : (i == j) ≡ false = ground (arith, mem-append j order (i ∷ [])) in
        rw apart (inv.out j (ground (arith, mem-append j order (i ∷ []))));
    front =
        Front-take order alone (omega (arith, inv.handed, inv.served))
          (Front-queue ticket order inv.front);
  }

  out-Inv :
      {l' : Lock} {p p' : Pc}
      → s.pc i ≡ p
      → (mv : Move max i s.lock p l' p') → Inv max n (moved s i l' p') (after mv order)
  out-Inv {p} e (check {d} q) =
      let h : d ≡ 0 = subst IsOut e (inv.out i alone) in
      subst (λ d. Inv max n (moved s i s.lock (checked d)) order) (sym h) checked-Inv
  out-Inv e (take {d}) =
      let h : d ≡ 0 = subst IsOut e (inv.out i alone) in
      subst (λ d. Inv max n (moved s i given (spinning d ticket)) (order ++ i ∷ [])) (sym h)
        taken-Inv
  out-Inv e (nest q b) =
      absurd
        (ground (arith, Front-owner max s.lock s.pc i order (omega (arith, inv.known)) inv.front))
  out-Inv e (lower {d}) =
      let h : suc d ≡ 0 = subst IsOut e (inv.out i alone) in absurd (omega arith)
  out-Inv e raise = absurd (subst IsOut e (inv.out i alone))
  out-Inv e (wait q) = absurd (subst IsOut e (inv.out i alone))
  out-Inv e (win q) = absurd (subst IsOut e (inv.out i alone))
  out-Inv e own = absurd (subst IsOut e (inv.out i alone))
  out-Inv e count = absurd (subst IsOut e (inv.out i alone))
  out-Inv e lowered = absurd (subst IsOut e (inv.out i alone))
  out-Inv e (keep q) = absurd (subst IsOut e (inv.out i alone))
  out-Inv e (leave q) = absurd (subst IsOut e (inv.out i alone))
  out-Inv e clear = absurd (subst IsOut e (inv.out i alone))
  out-Inv e release = absurd (subst IsOut e (inv.out i alone))

module _ {max n : ℕ} {s : System} {i : ℕ} {l' : Lock} {p' : Pc} where
  held-Inv :
      (order : List ℕ)
      → mem i order ≡ true
      → Inv max n s order
      → (mv : Move max i s.lock (s.pc i) l' p') → Inv max n (moved s i l' p') (after mv order)
  held-Inv [] m inv mv = absurd (ground arith)
  held-Inv (x ∷ xs) m inv mv = elim (Bool-cases (x == i)) [
    | inl here ↦
        let e : i ≡ x = sym ((==_iff x i).0 here) in
        subst (λ z. Inv max n (moved s i l' p') (after mv (z ∷ xs))) e
          (first-Inv (subst (λ z. Inv max n s (z ∷ xs)) (sym e) inv) refl mv)
    | inr there ↦ behind-Inv inv i (ground arith) refl mv
  ]

  -- For at most 2 ^ 64 - 1 tasks, each below `max_tasks`, that nest their calls fewer than
  -- 2 ^ 32 deep: every access of one of them keeps the invariant that the tasks with a ticket stand in a queue in the order of their tickets, none
  -- twice, and that only the first one is past the waiting loop. The access that takes a ticket
  -- appends the task to the queue, the last access of the outermost `spinlock_unlock` takes the
  -- first task off, and every other access leaves the queue as it is.
  pub Move-Inv :
      {order : List ℕ}
      → Inv max n s order
      → i < n
      → (mv : Move max i s.lock (s.pc i) l' p') → Inv max n (moved s i l' p') (after mv order)
  Move-Inv {order} inv lt mv = elim (Bool-cases (mem i order)) [
    | inl m ↦ held-Inv order m inv mv
    | inr m ↦ out-Inv inv i lt m refl mv
  ]
