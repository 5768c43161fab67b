-- ===== src/Sched/Insert.antt =====
-- The list part of `timer_queue_push` inserts in the order of the timeouts.
use libhermit.Base.{
  ℕ, zero, suc, ◌<◌, ◌≡◌, refl, Bool, true, false, Option, none, some, List, [], ◌∷◌, arith, inl,
  inr, leb, ==-refl, if◌then◌else◌, ptr_eq, mem, length, update, update_at, Bool-cases, ◌∙◌, sym,
  subst₃, IsDistinct,
}
use libhermit.TaskList.{
  Links, TaskList, Chain, Chain-frame, Agree, IsTaskList, last-ne, prev-ne, prev-ne', self_out,
}
use libhermit.Sched.Timer.{find_slot, insert_at, insert_first, timer_insert}
use libhermit.Sched.Inv.{IsOrdered}

cons-Chain :
    (l : Links) (b p q e : Option ℕ) (x : ℕ) (xs : List ℕ)
    → p ≡ some x
    → l.prev x ≡ b
    → l.next x ≡ q
    → Chain l (some x) q xs e
    → Chain l b p (x ∷ xs) e
cons-Chain l b p q e x xs here prev next c = (here, prev, rw next c)

module _ (key : ℕ → ℕ) (t : ℕ) where
  -- Behind all tasks that time out no later.
  abbrev pub insert_by : List ℕ → List ℕ
  insert_by [] = t ∷ []
  insert_by (x ∷ xs) = if leb (key x) (key t) then x ∷ insert_by xs else t ∷ x ∷ xs

  -- The first task that times out later.
  abbrev later : List ℕ → Option ℕ
  later [] = none
  later (x ∷ xs) = if leb (key x) (key t) then later xs else some x

  abbrev new_first : Option ℕ → List ℕ → Option ℕ
  new_first p [] = some t
  new_first p (x ∷ xs) = if leb (key x) (key t) then p else some t

  abbrev new_last : Option ℕ → Option ℕ → Option ℕ
  new_last e none = some t
  new_last e (some z) = e

  -- The links after the insertion in front of the slot.
  abbrev linked : Links → Option ℕ → Option ℕ → Links
  linked l e none = record {
    next = update_at (update l.next t none) e (some t);
    prev = update l.prev t e;
  }
  linked l e (some z) = record {
    next = update_at (update l.next t (some z)) (l.prev z) (some t);
    prev = update (update l.prev t (l.prev z)) z (some t);
  }

  later-mem : (xs : List ℕ) (a : ℕ) → mem a xs ≡ false → ptr_eq (later xs) (some a) ≡ false
  later-mem [] a m = refl
  later-mem (x ∷ xs) a m = ground (arith, later-mem xs a)

  -- The slot is `x` itself.
  at-Chain :
      (l : Links) (b p e : Option ℕ) (x : ℕ) (xs : List ℕ)
      → IsDistinct (x ∷ xs)
      → mem t (x ∷ xs) ≡ false
      → ((a : ℕ) → mem a (t ∷ x ∷ xs) ≡ true → ptr_eq b (some a) ≡ false)
      → Chain l b p (x ∷ xs) e
      → Chain (linked l e (some x)) b (some t) (t ∷ x ∷ xs) e
  at-Chain l b p e x xs d m out c = (
    refl,
    ground arith,
    (
      ground (arith, out t),
      ground arith,
      rw same (Chain-frame l after (some x) (l.next x) e xs agree c.2),
    ),
  )
    where
      after : Links
      after = linked l e (some x)

      same : after.next x ≡ l.next x
      same = ground (arith, out x)

      agree : Agree l after xs
      agree a n = ground (arith, out a)

  abbrev SlotIn : Option ℕ → List ℕ → Type 0
  SlotIn none xs = Unit
  SlotIn (some z) xs = mem z xs ≡ true

  slot-mem : (xs : List ℕ) → SlotIn (later xs) xs
  slot-mem [] = tt
  slot-mem (x ∷ xs) = elim (Bool-cases (leb (key x) (key t))) [
    | inl early ↦ rw early (SlotIn-cons (later xs) x xs (slot-mem xs))
    | inr late ↦ rw (late, ==-refl x)
  ]
    where
      SlotIn-cons : (o : Option ℕ) (x : ℕ) (xs : List ℕ) → SlotIn o xs → SlotIn o (x ∷ xs)
      SlotIn-cons none x xs h = tt
      SlotIn-cons (some z) x xs h = ground arith

  -- The links of the task in front of `y`, when the slot is `y` or lies behind it.
  spared :
      (l : Links) (e : Option ℕ) (x y : ℕ) (ys : List ℕ)
      → IsDistinct (x ∷ y ∷ ys)
      → mem t (x ∷ y ∷ ys) ≡ false
      → Chain l (some x) (l.next x) (y ∷ ys) e
      → (o : Option ℕ) → SlotIn o (y ∷ ys)
      → ((linked l e o).next x ≡ (if ptr_eq o (some y) then some t else l.next x))
        × ((linked l e o).prev x ≡ l.prev x)
  spared l e x y ys d m c none s = ground (arith, last-ne l (some x) (l.next x) e y x ys d.0 c)
  spared l e x y ys d m c (some z) s = ground (arith, prev-ne l (some x) (l.next x) e z x y ys)

  -- The slot lies behind `x`.
  behind-Chain :
      (l : Links) (b p e : Option ℕ) (x : ℕ) (xs : List ℕ)
      → IsDistinct (x ∷ xs)
      → mem t (x ∷ xs) ≡ false
      → Chain l b p (x ∷ xs) e
      → let after = linked l e (later xs) in
        Chain after (some x) (new_first (l.next x) xs) (insert_by xs) (new_last e (later xs))
        → Chain after b p (x ∷ insert_by xs) (new_last e (later xs))
  behind-Chain l b p e x [] d m c ih = ground arith
  behind-Chain l b p e x (y ∷ ys) d m c ih =
      let (n, q) = spared l e x y ys d m c.2 (later (y ∷ ys)) (slot-mem (y ∷ ys)) in
      cons-Chain (linked l e (later (y ∷ ys))) b p (new_first (l.next x) (y ∷ ys))
        (new_last e (later (y ∷ ys))) x (insert_by (y ∷ ys)) c.0 (q ∙ c.1)
        (n ∙ ground (arith, later-mem ys y)) ih

  insert_by-Chain :
      (l : Links) (b p e : Option ℕ) (xs : List ℕ)
      → IsDistinct xs
      → mem t xs ≡ false
      → ((a : ℕ) → mem a (t ∷ xs) ≡ true → ptr_eq b (some a) ≡ false)
      → Chain l b p xs e
      → Chain (linked l e (later xs)) b (new_first p xs) (insert_by xs) (new_last e (later xs))
  insert_by-Chain l b p e [] d m out c = ground (arith, out t)
  insert_by-Chain l b p e (x ∷ xs) d m out c = elim (Bool-cases (leb (key x) (key t))) [
    | inl early ↦ rw early (
        behind-Chain l b p e x xs d m c (
          insert_by-Chain l (some x) (l.next x) e xs d.1 (ground arith)
            (λ a n. self_out x a (t ∷ xs) (ground arith) n) c.2))
    | inr late ↦ rw late (at-Chain l b p e x xs d m out c)
  ]

  pub insert_by-mem : (a : ℕ) (xs : List ℕ) → mem a (insert_by xs) ≡ mem a (t ∷ xs)
  insert_by-mem a [] = refl
  insert_by-mem a (x ∷ xs) = ground (arith, insert_by-mem a xs)

  insert_by-IsDistinct :
      (xs : List ℕ) → IsDistinct xs → mem t xs ≡ false → IsDistinct (insert_by xs)
  insert_by-IsDistinct [] d m = (refl, tt)
  insert_by-IsDistinct (x ∷ xs) d m = elim (Bool-cases (leb (key x) (key t))) [
    | inl early ↦
        rw early (ground (arith, insert_by-mem x xs), insert_by-IsDistinct xs d.1 (ground arith))
    | inr late ↦ rw late (m, d)
  ]

  pub insert_by-IsOrdered : (xs : List ℕ) → IsOrdered key xs → IsOrdered key (insert_by xs)
  insert_by-IsOrdered [] o = o
  insert_by-IsOrdered (x ∷ []) o = ground arith
  insert_by-IsOrdered (x ∷ y ∷ ys) o = ground (arith, insert_by-IsOrdered (y ∷ ys) o.1)

  -- With fuel for the whole list the walk finds the slot.
  find_slot-later :
      (fuel : ℕ) (l : Links) (b p e : Option ℕ) (xs : List ℕ)
      → Chain l b p xs e
      → length xs < fuel
      → find_slot fuel l key (key t) p ≡ some (later xs)
  unfolding find_slot
  find_slot-later zero l b p e xs c f = absurd (omega arith)
  find_slot-later (suc fuel) l b p e [] c f = rw c.0
  find_slot-later (suc fuel) l b p e (x ∷ xs) c f =
      rw c.0 (ground (arith, find_slot-later fuel l (some x) (l.next x) e xs c.2 (omega arith)))

  linked-Agree :
      (l : Links) (f e : Option ℕ) (xs : List ℕ) (a : ℕ)
      → Chain l none f xs e
      → mem a (t ∷ xs) ≡ false
      → (o : Option ℕ) → SlotIn o xs
      → ((linked l e o).next a ≡ l.next a) × ((linked l e o).prev a ≡ l.prev a)
  linked-Agree l f e [] a c m none s = ground arith
  linked-Agree l f e [] a c m (some z) s = ground arith
  linked-Agree l f e (x ∷ xs) a c m none s = ground (arith, last-ne l none f e x a xs)
  linked-Agree l f e (x ∷ xs) a c m (some z) s = ground (arith, prev-ne' l none f e z a (x ∷ xs))

  -- The list after the insertion at a slot `o` other than the only one of an empty list.
  insert_at-eq :
      (l : Links) (list : TaskList) (x : ℕ) (xs : List ℕ)
      → list.first ≡ some x
      → (o : Option ℕ) → later (x ∷ xs) ≡ o
      → mem x xs ≡ false
      → ((insert_at o list t l).0.first ≡ new_first list.first (x ∷ xs))
        × ((insert_at o list t l).0.last ≡ new_last list.last o)
        × ((insert_at o list t l).1 ≡ linked l list.last o)
  insert_at-eq l list x xs f none s d = ground arith
  insert_at-eq l list x xs f (some z) s d = ground (arith, later-mem xs x)

  timer_insert-run :
      (fuel : ℕ) (l : Links) (list : TaskList) (x : ℕ) (o : Option ℕ)
      → list.first ≡ some x
      → find_slot fuel l key (key t) (some x) ≡ some o
      → timer_insert fuel key list t l ≡ some (insert_at o list t l)
  unfolding timer_insert
  timer_insert-run fuel l list x o f s = ground (arith, s)

  -- What `timer_insert` leaves behind.
  pub record Inserted (l : Links) (xs : List ℕ) (r : TaskList × Links × Bool) : Type 0 where
    pub list : IsTaskList r.1 r.0 (insert_by xs)
    pub same : (a : ℕ) → mem a (t ∷ xs) ≡ false → (r.1.next a ≡ l.next a) × (r.1.prev a ≡ l.prev a)

  -- With fuel for the queue, the task is inserted behind all tasks that time out no later; the
  -- links of other tasks stay.
  pub timer_insert-Inserted :
      (fuel : ℕ) (l : Links) (list : TaskList) (xs : List ℕ)
      → IsTaskList l list xs
      → mem t xs ≡ false
      → length xs < fuel
      → (r : TaskList × Links × Bool) × (timer_insert fuel key list t l ≡ some r) × Inserted l xs r
  unfolding timer_insert
  timer_insert-Inserted fuel l list [] v m f = (
    insert_first t l,
    rw v.chain.0,
    record {
      list = record { chain = ground arith; distinct = (refl, tt) };
      same = λ a n. ground arith;
    },
  )
  timer_insert-Inserted fuel l list (x ∷ xs) v m f =
      let o = later (x ∷ xs) in
      let (ef, el, eo) = insert_at-eq l list x xs v.chain.0 o refl v.distinct.0 in
      (
        insert_at o list t l,
        timer_insert-run fuel l list x o v.chain.0 (
            find_slot-later fuel l none (some x) list.last (x ∷ xs) (refl, v.chain.1, v.chain.2) f),
        record {
          list = record {
            chain =
                subst₃ (λ l' p e. Chain l' none p (insert_by (x ∷ xs)) e) (sym eo) (sym ef) (sym el)
                  (insert_by-Chain l none list.first list.last (x ∷ xs) v.distinct m (λ a n. refl)
                    v.chain);
            distinct = insert_by-IsDistinct (x ∷ xs) v.distinct m;
          };
          same = λ a n.
              rw eo
                (linked-Agree l list.first list.last (x ∷ xs) a v.chain n o (slot-mem (x ∷ xs)));
        },
      )
