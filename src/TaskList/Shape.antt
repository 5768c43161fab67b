-- ===== src/TaskList/Shape.antt =====
-- What a well-formed `task_list_t` is: a doubly linked chain of distinct tasks.
use libhermit.Base.{ℕ, ◌≡◌, true, Option, none, some, List, [], ◌∷◌, arith, mem, IsDistinct}
use libhermit.TaskList.Defs.{Links, TaskList}

-- From `p` the links lead through the tasks `xs`; `before` precedes the first, `e` is the last one
-- (or `before`, if there is none).
abbrev pub Chain : Links → Option ℕ → Option ℕ → List ℕ → Option ℕ → Type 0
Chain l before p [] e = (p ≡ none) × (e ≡ before)
Chain l before p (x ∷ xs) e = (p ≡ some x) × (l.prev x ≡ before) × Chain l (some x) (l.next x) xs e

-- The list holds exactly the tasks `xs`, in this order.
pub record IsTaskList (l : Links) (list : TaskList) (xs : List ℕ) : Type 0 where
  pub chain : Chain l none list.first xs list.last
  pub distinct : IsDistinct xs

-- Two states of the links that agree on the tasks of `xs`.
abbrev pub Agree : Links → Links → List ℕ → Type 0
Agree l l' xs = (a : ℕ) → mem a xs ≡ true → (l'.next a ≡ l.next a) × (l'.prev a ≡ l.prev a)

Agree-tail : (l l' : Links) (x : ℕ) (xs : List ℕ) → Agree l l' (x ∷ xs) → Agree l l' xs
Agree-tail l l' x xs h a m = h a (ground arith)

pub Chain-frame :
    (l l' : Links) (b p e : Option ℕ) (xs : List ℕ)
    → Agree l l' xs
    → Chain l b p xs e
    → Chain l' b p xs e
Chain-frame l l' b p e [] h c = c
Chain-frame l l' b p e (x ∷ xs) h c =
    ground (arith, h x, Chain-frame l l' (some x) (l.next x) e xs (Agree-tail l l' x xs h))

pub IsTaskList-frame :
    (l l' : Links) (list : TaskList) (xs : List ℕ)
    → Agree l l' xs
    → IsTaskList l list xs
    → IsTaskList l' list xs
IsTaskList-frame l l' list xs h v = record {
  chain = Chain-frame l l' none list.first list.last xs h v.chain;
  distinct = v.distinct;
}
