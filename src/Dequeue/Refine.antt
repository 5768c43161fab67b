-- ===== src/Dequeue/Refine.antt =====
-- A dequeue of `n` slots is a first-in first-out queue of at most `n - 1` elements.
use libhermit.Base.{
  ℕ, suc, ◌+◌, ◌-◌, ◌%◌, ◌^◌, ◌≤◌, ◌<◌, ◌≡◌, ◌≢◌, Option, none, some, List, [], ◌∷◌, ◌++◌, arith,
  ◌==◌, if◌then◌else◌, ltb, length, get_elem?, get_or, set, length-set, ap, ap₂, ◌∙◌, ◌⊎◌, inl, inr,
  Bool, Bool-cases, sym, get_elem?-eq-get_or, ring_step, mod-ring_step, window, ahead, ahead-eq,
  window-cons, window-push,
}
use libhermit.Dequeue.Defs.{
  Dequeue, Code, ok, eoverflow, enoent, step_index, dequeue_push, dequeue_pop,
}

pub record IsValid (d : Dequeue) : Type 0 where
  pub storage : d.buffer_length ≤ length d.buffer
  pub small : d.buffer_length < 2 ^ 64
  pub front_in : d.front < d.buffer_length
  pub back_in : d.back < d.buffer_length

-- The number of elements held.
abbrev pub count : Dequeue → ℕ
count d = if ltb d.back d.front then d.back + d.buffer_length - d.front else d.back - d.front

abbrev pub contents : Dequeue → List ℕ
contents d = window d.buffer d.buffer_length d.front (count d)

-- One step round the ring.
step-eq : (i n : ℕ) → i < n → n < 2 ^ 64 → step_index i n ≡ ring_step n i
step-eq i n h s =
    let wrap : (i + 1) % 2 ^ 64 ≡ i + 1 = omega arith in ap (λ k. k % n) wrap ∙ mod-ring_step n i h

-- The number of elements is below the number of slots.
count-lt : {d : Dequeue} → IsValid d → count d < d.buffer_length
count-lt v = ground (arith, v.front_in, v.back_in)

-- The back is where the elements end.
back-ahead : {d : Dequeue} → IsValid d → d.back ≡ ahead d.buffer_length d.front (count d)
back-ahead {d} v = ground (
  arith,
  v.front_in,
  v.back_in,
  ahead-eq d.buffer_length d.front (count d) v.front_in (count-lt v),
)

module _ {d : Dequeue} (v : IsValid d) where
  full-eq : (step_index d.back d.buffer_length == d.front) ≡ (count d == d.buffer_length - 1)
  full-eq = ground (arith, v.front_in, v.back_in, step-eq d.back d.buffer_length v.back_in v.small)

  empty-eq : (d.front == d.back) ≡ (count d == 0)
  empty-eq = ground (arith, v.front_in, v.back_in)

  step_in : {i : ℕ} → i < d.buffer_length → step_index i d.buffer_length < d.buffer_length
  step_in {i} h = ground (arith, step-eq i d.buffer_length h v.small)

  abbrev added : ℕ → Dequeue
  added x = record d { buffer = set d.buffer d.back x; back = step_index d.back d.buffer_length }

  added-IsValid : (x : ℕ) → IsValid (added x)
  added-IsValid x = record {
    storage = rw (length-set d.buffer d.back x) v.storage;
    small = v.small;
    front_in = v.front_in;
    back_in = step_in v.back_in;
  }

  abbrev rest : Dequeue
  rest = record d { front = step_index d.front d.buffer_length }

  abbrev result : Bool → Code × Option ℕ × Dequeue
  result b = if b then (enoent, none, d) else (ok, get_elem? d.buffer d.front, rest)

  push_count : count d ≢ d.buffer_length - 1 → (x : ℕ) → count (added x) ≡ suc (count d)
  push_count ne x =
      ground (arith, v.front_in, v.back_in, step-eq d.back d.buffer_length v.back_in v.small)

  pop_count : count d ≢ 0 → count rest ≡ count d - 1
  pop_count ne =
      ground (arith, v.front_in, v.back_in, step-eq d.front d.buffer_length v.front_in v.small)

  none_left : count d ≡ 0 → contents d ≡ []
  none_left h = ap (λ k. window d.buffer d.buffer_length d.front k) h

  -- Pushing fails with -EOVERFLOW, and changes nothing, when `buffer_length - 1` elements are held;
  -- otherwise it succeeds, the dequeue stays valid and the element is behind the others.
  pub dequeue_push-append :
      (x : ℕ)
      → ((count d ≡ d.buffer_length - 1) × (dequeue_push d x ≡ (eoverflow, d)))
        ⊎ ((d' : Dequeue) × (count d < d.buffer_length - 1)
            × (dequeue_push d x ≡ (ok, d'))
            × IsValid d'
            × (contents d' ≡ contents d ++ x ∷ []))
  unfolding dequeue_push
  dequeue_push-append x = elim (Bool-cases (count d == d.buffer_length - 1)) [
    | inl e ↦
        inl (ground arith, ap (λ b. if b then (eoverflow, d) else (ok, added x)) (full-eq ∙ e))
    | inr e ↦
        let ne : count d ≢ d.buffer_length - 1 = λ h. ground arith in
        inr (
          added x,
          ground (arith, count-lt v),
          ap (λ b. if b then (eoverflow, d) else (ok, added x)) (full-eq ∙ e),
          added-IsValid x,
          ap (λ k. window (added x).buffer d.buffer_length d.front k) (push_count ne x)
              ∙ ap (λ j. window (set d.buffer j x) d.buffer_length d.front (suc (count d)))
                  (back-ahead v)
              ∙ window-push d.buffer d.buffer_length x d.front (count d) v.storage v.front_in
                  (count-lt v),
        )
  ]

  -- Popping fails with -ENOENT, and changes nothing, when no element is held; otherwise it hands
  -- out the oldest element and leaves the others, and the dequeue stays valid.
  pub dequeue_pop-head :
      ((contents d ≡ []) × (dequeue_pop d ≡ (enoent, none, d)))
      ⊎ ((y : ℕ) × (d' : Dequeue) × (dequeue_pop d ≡ (ok, some y, d'))
          × IsValid d'
          × (contents d ≡ y ∷ contents d'))
  unfolding dequeue_pop
  dequeue_pop-head = elim (Bool-cases (count d == 0)) [
    | inl e ↦ inl (none_left (ground arith), ap result (empty-eq ∙ e))
    | inr e ↦ inr (
      get_or d.buffer d.front 0,
      rest,
      ap result (empty-eq ∙ e)
          ∙ ap (λ y. (ok, y, rest))
              (get_elem?-eq-get_or d.buffer d.front 0 (omega (arith, v.front_in, v.storage))),
      record {
        storage = v.storage;
        small = v.small;
        front_in = step_in v.front_in;
        back_in = v.back_in;
      },
      window-cons d.buffer d.buffer_length d.front (count d) (ground arith)
          ∙ ap₂ (λ i k. get_or d.buffer d.front 0 ∷ window d.buffer d.buffer_length i k)
              (sym (step-eq d.front d.buffer_length v.front_in v.small))
              (sym (pop_count (λ h. ground arith))),
    )
  ]
