-- ===== src/TaskList/Push.antt =====
-- `task_list_push_back` appends.
use libhermit.Base.{
  ℕ, ◌≡◌, true, false, Option, none, some, List, [], ◌∷◌, ◌++◌, arith, mem, IsDistinct, update,
  snoc-IsDistinct,
}
use libhermit.TaskList.Defs.{Links, TaskList, task_list_push_back}
use libhermit.TaskList.Shape.{Chain, IsTaskList}

-- The links after `t` is appended behind `z`.
abbrev appended : Links → ℕ → ℕ → Links
appended l z t = record {
  next = update (update l.next t none) z (some t);
  prev = update l.prev t (some z);
}

last_mem :
    (l : Links) (b p : Option ℕ) (x z : ℕ) (xs : List ℕ)
    → Chain l b p (x ∷ xs) (some z)
    → mem z (x ∷ xs) ≡ true
last_mem l b p x z [] c = ground arith
last_mem l b p x z (y ∷ ys) c = ground (arith, last_mem l (some x) (l.next x) y z ys)

Chain-last-ne-none :
    (l : Links) (b p : Option ℕ) (x : ℕ) (xs : List ℕ) → Chain l b p (x ∷ xs) none → ⊥
Chain-last-ne-none l b p x [] c = ground arith
Chain-last-ne-none l b p x (y ∷ ys) c = Chain-last-ne-none l (some x) (l.next x) y ys c.2

appended-Chain :
    (l : Links) (b p : Option ℕ) (x z t : ℕ) (xs : List ℕ)
    → IsDistinct (x ∷ xs)
    → mem t (x ∷ xs) ≡ false
    → Chain l b p (x ∷ xs) (some z)
    → Chain (appended l z t) b p ((x ∷ xs) ++ t ∷ []) (some t)
appended-Chain l b p x z t [] d m c = ground arith
appended-Chain l b p x z t (y ∷ ys) d m c =
    ground
      (arith, appended-Chain l (some x) (l.next x) y z t ys, last_mem l (some x) (l.next x) y z ys)

abbrev pushed : Links → Option ℕ → Option ℕ → ℕ → TaskList × Links
unfolding task_list_push_back
pushed l f e t = task_list_push_back (record { first = f; last = e }) (some t) l

pushed-Chain :
    (l : Links) (f e : Option ℕ) (xs : List ℕ) (t : ℕ)
    → IsDistinct xs
    → mem t xs ≡ false
    → Chain l none f xs e
    → let (list', l') = pushed l f e t in Chain l' none list'.first (xs ++ t ∷ []) list'.last
unfolding task_list_push_back
pushed-Chain l f none [] t d m c = ground arith
pushed-Chain l f (some z) [] t d m c = ground arith
pushed-Chain l f none (x ∷ xs) t d m c = absurd (Chain-last-ne-none l none f x xs c)
pushed-Chain l f (some z) (x ∷ xs) t d m c = appended-Chain l none f x z t xs d m c

pushed-Agree :
    (l : Links) (f e : Option ℕ) (xs : List ℕ) (t a : ℕ)
    → Chain l none f xs e
    → mem a (t ∷ xs) ≡ false
    → let l' = (pushed l f e t).1 in (l'.next a ≡ l.next a) × (l'.prev a ≡ l.prev a)
unfolding task_list_push_back
pushed-Agree l f none xs t a c m = ground arith
pushed-Agree l f (some z) [] t a c m = ground arith
pushed-Agree l f (some z) (x ∷ xs) t a c m = ground (arith, last_mem l none f x z xs)

module _ (l : Links) (list : TaskList) (xs : List ℕ) (t : ℕ) (v : IsTaskList l list xs) where
  -- Pushing a task that is not in the list appends it, and the list stays well formed.
  pub push_back-append :
      mem t xs ≡ false
      → let (list', l') = task_list_push_back list (some t) l in IsTaskList l' list' (xs ++ t ∷ [])
  unfolding task_list_push_back
  push_back-append m = record {
    chain = pushed-Chain l list.first list.last xs t v.distinct m v.chain;
    distinct = snoc-IsDistinct t xs v.distinct m;
  }

  -- It leaves every task alone that is neither pushed nor in the list.
  pub push_back-Agree :
      (a : ℕ)
      → mem a (t ∷ xs) ≡ false
      → let l' = (task_list_push_back list (some t) l).1 in
        (l'.next a ≡ l.next a) × (l'.prev a ≡ l.prev a)
  unfolding task_list_push_back
  push_back-Agree a = pushed-Agree l list.first list.last xs t a v.chain
