-- ===== src/Vma/Back.antt =====
-- A new node keeps the `prev` links right.
use libhermit.Base.{
  ℕ, ◌≡◌, refl, true, false, Option, some, List, [], ◌∷◌, ◌++◌, arith, ◌∙◌, ◌==◌, ==-refl, mem,
  IsDistinct, update, update_at, mem-append,
}
use libhermit.Vma.Areas.{Backs, last_of, first_of}

-- The `prev` links after the node `n` is put between `pre` and `post`.
module _ (n : ℕ) (post : List ℕ) where
  Backs-frame :
      (prev prev' : ℕ → Option ℕ) (before : Option ℕ) (ids : List ℕ)
      → ((a : ℕ) → mem a ids ≡ true → prev' a ≡ prev a)
      → Backs prev before ids
      → Backs prev' before ids
  Backs-frame prev prev' before [] f h = h
  Backs-frame prev prev' before (x ∷ xs) f h =
      (f x (ground arith) ∙ h.0, Backs-frame prev prev' (some x) xs (λ a m. f a (ground arith)) h.1)

  insert-Backs_front :
      (prev : ℕ → Option ℕ) (before : Option ℕ) (ids : List ℕ)
      → mem n ids ≡ false
      → IsDistinct ids
      → Backs prev before ids
      → Backs (update_at (update prev n before) (first_of ids) (some n)) before (n ∷ ids)
  insert-Backs_front prev before [] m d h = (rw (==-refl n) refl, tt)
  insert-Backs_front prev before (y ∷ ys) m d h =
      let apart : (y == n) ≡ false = ground (arith, m) in
      (
        rw (apart, ==-refl n) refl,
        (
          rw (==-refl y) refl,
          Backs-frame prev (update (update prev n before) y (some n)) (some y) ys
              (λ a k. ground (arith, m, d.0)) h.1,
        ),
      )

  pub insert-Backs :
      (prev : ℕ → Option ℕ) (before : Option ℕ) (pre : List ℕ)
      → mem n (pre ++ post) ≡ false
      → IsDistinct (pre ++ post)
      → Backs prev before (pre ++ post)
      → Backs
          (update_at (update prev n (last_of before pre)) (first_of post) (some n))
          before
          (pre ++ n ∷ post)
  insert-Backs prev before [] m d h = insert-Backs_front prev before post m d h
  insert-Backs prev before (x ∷ xs) m d h = (
    head (last_of (some x) xs) post (ground (arith, d.0, mem-append x xs post)),
    insert-Backs prev (some x) xs (ground (arith, m)) d.1 h.1,
  )
    where
      head :
          (p : Option ℕ) (l : List ℕ)
          → mem x l ≡ false
          → update_at (update prev n p) (first_of l) (some n) x ≡ before
      head p [] k = let apart : (n == x) ≡ false = ground (arith, m) in rw apart h.0
      head p (y ∷ ys) k =
          let apart : (n == x) ≡ false = ground (arith, m) in
          let other : (y == x) ≡ false = ground (arith, k) in rw (other, apart) h.0
