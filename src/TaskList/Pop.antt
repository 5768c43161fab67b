-- ===== src/TaskList/Pop.antt =====
-- `task_list_pop_front` takes the head off.
use libhermit.Base.{
  ℕ, ◌≡◌, refl, false, Option, none, some, List, [], ◌∷◌, arith, mem, IsDistinct, update,
}
use libhermit.TaskList.Defs.{Links, TaskList, clear_links, task_list_pop_front}
use libhermit.TaskList.Shape.{Chain, IsTaskList, Agree, Chain-frame}

-- The result is the head, and the list that is left holds the rest; the head's links are NULL.
abbrev pub Popped : Links → ℕ → List ℕ → Option ℕ × TaskList × Links → Type 0
Popped l t xs (out, list', l') =
    (out ≡ some t)
    × IsTaskList l' list' xs
    × (l'.next t ≡ none)
    × (l'.prev t ≡ none)
    × ((a : ℕ) → mem a (t ∷ xs) ≡ false → (l'.next a ≡ l.next a) × (l'.prev a ≡ l.prev a))

Popped-rest :
    (l : Links) (f e : Option ℕ) (t : ℕ) (xs : List ℕ)
    → IsDistinct (t ∷ xs)
    → Chain l none f (t ∷ xs) e
    → (r : Option ℕ × TaskList × Links) × (task_list_pop_front (record { first = f; last = e }) l
        ≡ some r)
      × Popped l t xs r
unfolding task_list_pop_front
Popped-rest l f e t [] d c = (
  (some t, record { first = none; last = none }, clear_links l t),
  ground arith,
  (
    refl,
    record { chain = ground arith; distinct = tt },
    ground arith,
    ground arith,
    λ a m. ground arith,
  ),
)
Popped-rest l f e t (x ∷ xs) d c = (
  (some t, record { first = some x; last = e }, after),
  ground arith,
  (
    refl,
    record { chain = (refl, ground arith, rw same rest); distinct = d.1 },
    ground arith,
    ground arith,
    λ a m. ground arith,
  ),
)
  where
    after : Links
    after = clear_links (record l { prev = update l.prev x none }) t

    same : after.next x ≡ l.next x
    same = ground arith

    agree : Agree l after xs
    agree a m = ground arith

    rest : Chain after (some x) (l.next x) xs e
    rest = Chain-frame l after (some x) (l.next x) e xs agree c.2.2

module _ (l : Links) (list : TaskList) (t : ℕ) (xs : List ℕ) where
  -- Popping a list that holds `t ∷ xs` returns `t` and leaves `xs`.
  pub pop_front-cons :
      IsTaskList l list (t ∷ xs)
      → (r : Option ℕ × TaskList × Links) × (task_list_pop_front list l ≡ some r) × Popped l t xs r
  pop_front-cons v = Popped-rest l list.first list.last t xs v.distinct v.chain

-- Popping an empty list faults: it writes through the NULL head.
pub pop_front-nil :
    (l : Links) (list : TaskList) → IsTaskList l list [] → task_list_pop_front list l ≡ none
unfolding task_list_pop_front
pop_front-nil l list v = rw v.chain.0
