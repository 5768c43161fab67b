-- ===== src/TaskList/Remove.antt =====
-- `task_list_remove_task` erases.
use libhermit.Base.{
  ℕ, ◌≡◌, refl, true, false, inl, inr, Option, none, some, List, [], ◌∷◌, arith, ◌==◌,
  if◌then◌else◌, ptr_eq, mem, IsDistinct, erase, erase-IsDistinct, update_at, Bool-cases, ==_iff,
  ==-refl, subst, sym,
}
use libhermit.TaskList.Defs.{Links, TaskList, task_list_remove_task}
use libhermit.TaskList.Shape.{Chain, IsTaskList, Agree, Chain-frame}

abbrev removed : Links → ℕ → Links
removed l t = record {
  next = update_at l.next (l.prev t) (l.next t);
  prev = update_at l.prev (l.next t) (l.prev t);
}

-- No pointer out of the chain leads to a task that is not in it.
pub last-ne :
    (l : Links) (b p e : Option ℕ) (x t : ℕ) (xs : List ℕ)
    → mem t (x ∷ xs) ≡ false
    → Chain l b p (x ∷ xs) e
    → ptr_eq e (some t) ≡ false
last-ne l b p e x t [] m c = ground arith
last-ne l b p e x t (y ∷ ys) m c = ground (arith, last-ne l (some x) (l.next x) e y t ys)

next-ne :
    (l : Links) (b p e : Option ℕ) (t y : ℕ) (xs : List ℕ)
    → mem t xs ≡ true
    → mem y xs ≡ false
    → Chain l b p xs e
    → ptr_eq (l.next t) (some y) ≡ false
next-ne l b p e t y [] m out c = ground arith
next-ne l b p e t y (x ∷ []) m out c = ground arith
next-ne l b p e t y (x ∷ z ∷ zs) m out c =
    ground (arith, next-ne l (some x) (l.next x) e t y (z ∷ zs))

pub prev-ne :
    (l : Links) (b p e : Option ℕ) (t y x : ℕ) (xs : List ℕ)
    → mem t xs ≡ true
    → mem y (x ∷ xs) ≡ false
    → Chain l b p (x ∷ xs) e
    → ptr_eq (l.prev t) (some y) ≡ false
prev-ne l b p e t y x [] m out c = ground arith
prev-ne l b p e t y x (z ∷ zs) m out c = ground (arith, prev-ne l (some x) (l.next x) e t y z zs)

pub prev-ne' :
    (l : Links) (b p e : Option ℕ) (t y : ℕ) (xs : List ℕ)
    → mem t xs ≡ true
    → mem y xs ≡ false
    → Chain l b p xs e
    → ptr_eq b (some y) ≡ false
    → ptr_eq (l.prev t) (some y) ≡ false
prev-ne' l b p e t y [] m out c q = ground arith
prev-ne' l b p e t y (x ∷ xs) m out c q = ground (arith, prev-ne l b p e t y x xs)

ends-ne :
    (l : Links) (p e : Option ℕ) (t : ℕ) (xs : List ℕ)
    → mem t xs ≡ false
    → Chain l none p xs e
    → (ptr_eq p (some t) ≡ false) × (ptr_eq e (some t) ≡ false)
ends-ne l p e t [] out c = ground arith
ends-ne l p e t (x ∷ xs) out c = ground (arith, last-ne l none p e x t xs)

-- Behind the removed task.
after-Chain :
    (l : Links) (b e : Option ℕ) (t : ℕ) (xs : List ℕ)
    → IsDistinct (t ∷ xs)
    → l.prev t ≡ b
    → ((a : ℕ) → mem a (t ∷ xs) ≡ true → ptr_eq b (some a) ≡ false)
    → Chain l (some t) (l.next t) xs e
    → Chain (removed l t) b (l.next t) xs (if ptr_eq e (some t) then b else e)
after-Chain l b e t [] d q out c = ground arith
after-Chain l b e t (x ∷ xs) d q out c = rw (last-ne l (some t) (l.next t) e x t xs d.0 c) (
  ground (arith, out x),
  ground (arith, out x),
  rw same (Chain-frame l (removed l t) (some x) (l.next x) e xs agree c.2),
)
  where
    same : (removed l t).next x ≡ l.next x
    same = ground (arith, out x)

    agree : Agree l (removed l t) xs
    agree a m = ground (arith, out a)

-- Removing the head.
abbrev Left : Links → ℕ → (b p e : Option ℕ) → List ℕ → Type 0
Left l t b p e ys =
    Chain (removed l t) b (if ptr_eq p (some t) then l.next t else p) ys
      (if ptr_eq e (some t) then l.prev t else e)

head-Chain :
    (l : Links) (b p e : Option ℕ) (x : ℕ) (xs : List ℕ)
    → IsDistinct (x ∷ xs)
    → ((a : ℕ) → mem a (x ∷ xs) ≡ true → ptr_eq b (some a) ≡ false)
    → Chain l b p (x ∷ xs) e
    → Left l x b p e xs
head-Chain l b p e x xs d out c =
    rw (c.0, ==-refl x)
      (subst (λ u. Chain (removed l x) b (l.next x) xs (if ptr_eq e (some x) then u else e))
        (sym c.1) (after-Chain l b e x xs d c.1 out c.2))

pub self_out : (x a : ℕ) (xs : List ℕ) → mem x xs ≡ false → mem a xs ≡ true → (x == a) ≡ false
self_out x a [] m n = ground arith
self_out x a (y ∷ ys) m n = ground (arith, self_out x a ys)

later-Chain :
    (l : Links) (b p e : Option ℕ) (t x : ℕ) (xs : List ℕ)
    → IsDistinct (x ∷ xs)
    → (x == t) ≡ false
    → mem t xs ≡ true
    → ((a : ℕ) → mem a (x ∷ xs) ≡ true → ptr_eq b (some a) ≡ false)
    → Chain l b p (x ∷ xs) e
    → Left l t (some x) (l.next x) e (erase t xs)
    → Left l t b p e (x ∷ erase t xs)
later-Chain l b p e t x [] d ne m out c ih = ground arith
later-Chain l b p e t x (y ∷ ys) d ne m out c ih = ground (
  arith,
  out x,
  next-ne l (some x) (l.next x) e t x (y ∷ ys),
  prev-ne l (some x) (l.next x) e t x y ys,
)

removed-Chain :
    (l : Links) (b p e : Option ℕ) (t : ℕ) (xs : List ℕ)
    → IsDistinct xs
    → mem t xs ≡ true
    → ((a : ℕ) → mem a xs ≡ true → ptr_eq b (some a) ≡ false)
    → Chain l b p xs e
    → Left l t b p e (erase t xs)
removed-Chain l b p e t [] d m out c = ground arith
removed-Chain l b p e t (x ∷ xs) d m out c = elim (Bool-cases (x == t)) [
  | inl here ↦
      rw here
        (subst (λ u. Left l u b p e xs) ((==_iff x t).0 here) (head-Chain l b p e x xs d out c))
  | inr later ↦ rw later (
      later-Chain l b p e t x xs d later (ground arith) out c (
        removed-Chain l (some x) (l.next x) e t xs d.1 (ground arith) (λ a n. self_out x a xs d.0 n)
          c.2))
]

-- The code reads `task->next` after it has written through `task->prev`.
update_at_self : (f : ℕ → Option ℕ) (p : Option ℕ) (t : ℕ) → update_at f p (f t) t ≡ f t
update_at_self f none t = refl
update_at_self f (some z) t = ground arith

module _ (l : Links) (list : TaskList) (xs : List ℕ) (t : ℕ) (v : IsTaskList l list xs) where
  -- Removing a task of the list erases it, and the list stays well formed.
  pub remove_task-erase :
      mem t xs ≡ true
      → let (list', l') = task_list_remove_task list t l in IsTaskList l' list' (erase t xs)
  unfolding task_list_remove_task
  remove_task-erase m = record {
    chain =
        rw (update_at_self l.next (l.prev t) t, update_at_self l.prev (l.next t) t)
          (removed-Chain l none list.first list.last t xs v.distinct m (λ a n. refl) v.chain);
    distinct = erase-IsDistinct t xs v.distinct;
  }

  -- It leaves every task alone that is not in the list.
  pub remove_task-Agree :
      (a : ℕ)
      → mem t xs ≡ true
      → mem a xs ≡ false
      → let l' = (task_list_remove_task list t l).1 in
        (l'.next a ≡ l.next a) × (l'.prev a ≡ l.prev a)
  unfolding task_list_remove_task
  remove_task-Agree a m out = ground (
    arith,
    next-ne l none list.first list.last t a xs m out v.chain,
    prev-ne' l none list.first list.last t a xs m out v.chain refl,
    update_at_self l.next (l.prev t) t,
  )

  -- Removing a task that is in no list changes nothing.
  pub remove_task_alone :
      mem t xs ≡ false
      → l.next t ≡ none
      → l.prev t ≡ none
      → task_list_remove_task list t l ≡ (list, l)
  unfolding task_list_remove_task
  remove_task_alone out n p = ground (arith, ends-ne l list.first list.last t xs out v.chain)
