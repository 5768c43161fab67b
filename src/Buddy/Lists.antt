-- ===== src/Buddy/Lists.antt =====
-- A block is taken off the list of its size, or put to its front.
use libhermit.Base.{
  ℕ, ◌+◌, ◌-◌, ◌^◌, ◌≤◌, ◌<◌, ◌≡◌, refl, ap, sym, subst, false, Option, some, List, [], ◌∷◌, arith,
  ◌==◌, ==-refl, update, inl, inr, ◌⊎◌, Bool-cases,
}
use libhermit.Buddy.Defs.{Heap, take_first, put_first}
use libhermit.Buddy.Pool.{
  Block, inside, at, pool, used_count, Chain, IsValid, Marked, inside_self, at-pool, pool-update,
  write-Chain, write-Marked,
}

-- Every block that `palloc` may return is one of `2 ^ k` bytes, and none of its addresses lies in a
-- block of the heap.
abbrev pub Fresh : (ℕ → ℕ) → (ℕ → List ℕ) → List Block → Type 0
Fresh pages frees used =
    (k : ℕ)
    → 16 ≤ k
    → k < 31
    → (pages (2 ^ k) ≡ 0)
      ⊎ ((0 < pages (2 ^ k))
          × (pages (2 ^ k) + 2 ^ k ≤ 2 ^ 64)
          × ((b : ℕ) → inside (pages (2 ^ k)) k b + pool frees b + used_count used b ≤ 1))

-- What `buddy_get` has come to: no block, or one of `2 ^ e` bytes.
abbrev pub Got : List Block → ℕ → Option (ℕ × Heap) → Type 0
Got used e r =
    (a : ℕ) × (h' : Heap) × (frees' : ℕ → List ℕ) × (r ≡ some (a, h'))
    × Marked h'.memory used
    × (((a ≡ 0) × IsValid h' frees' used)
        ⊎ ((0 < a)
            × (a + 2 ^ e ≤ 2 ^ 64)
            × IsValid h' frees' (record { addr = a; exp = e } ∷ used)))

-- The list of one size is changed.
relist-IsValid :
    (h : Heap) (frees : ℕ → List ℕ) (used : List Block) (e : ℕ) (memory : ℕ → ℕ) (p : ℕ)
    (xs : List ℕ)
    → 6 ≤ e
    → e < 31
    → ((k : ℕ) → 6 ≤ k → k < 31 → (e == k) ≡ false → Chain memory k (h.lists (k - 6)) (frees k))
    → h.lists 25 ≡ 0
    → Chain memory e p xs
    → ((b : ℕ) → pool (update frees e xs) b + used_count used b ≤ 1)
    → IsValid
        (record { memory = memory; lists = update h.lists (e - 6) p })
        (update frees e xs)
        used
relist-IsValid h frees used e memory p xs low high others top c apart = record {
  chains = λ k l g. elim (Bool-cases (e == k)) [
    | inl same ↦
        let eq : e ≡ k = ground arith in
        subst (λ k. Chain memory k (update h.lists (e - 6) p (k - 6)) (update frees e xs k)) eq
          (rw (==-refl e, ==-refl (e - 6)) c)
    | inr other ↦
        let apart_index : (e - 6 == k - 6) ≡ false = ground arith in
        rw (other, apart_index) (others k l g other)
  ];
  top = (let apart_index : (e - 6 == 25) ≡ false = ground arith in rw apart_index top);
  apart = apart;
}

-- A block is taken off the list of its size, or put to its front.
module _ (h : Heap) (frees : ℕ → List ℕ) (used : List Block) (e : ℕ) (low : 6 ≤ e)
    (high : e < 31) where
  pub take_first-Got :
      (l : List ℕ)
      → frees e ≡ l
      → IsValid h frees used
      → Marked h.memory used
      → (h.lists (e - 6) == 0) ≡ false
      → Got used e (some (take_first e h))
  take_first-Got [] q v m z =
      let c = subst (Chain h.memory e (h.lists (e - 6))) q (v.chains e low high) in
      absurd (ground arith)
  take_first-Got (x ∷ xs) q v m z =
      let c = subst (Chain h.memory e (h.lists (e - 6))) q (v.chains e low high) in
      subst (λ p. Got used e (some (p, record h { lists = update h.lists (e - 6) (h.memory p) })))
        (sym c.0)
        (
          x,
          record h { lists = update h.lists (e - 6) (h.memory x) },
          update frees e xs,
          refl,
          m,
          inr (
            c.1,
            c.2,
            relist-IsValid h frees (record { addr = x; exp = e } ∷ used) e h.memory (h.memory x) xs
                low high (λ k l g o. v.chains k l g) v.top c.3
                (λ b.
                  omega (arith, v.apart b, pool-update frees e b high xs, ap (λ l. at e l b) q)),
          ),
        )

  pub put_first-IsValid :
      (x : ℕ)
      → IsValid h frees (record { addr = x; exp = e } ∷ used)
      → 0 < x
      → x + 2 ^ e ≤ 2 ^ 64
      → IsValid (put_first e x h) (update frees e (x ∷ frees e)) used
  put_first-IsValid x v p l =
      relist-IsValid h frees used e (update h.memory x (h.lists (e - 6))) x (x ∷ frees e) low high
        (λ k l g o.
          write-Chain h.memory x (h.lists (e - 6)) k (h.lists (k - 6)) (frees k) (free k g)
            (v.chains k l g))
        v.top
        (
          refl,
          p,
          l,
          rw (==-refl x) (
              write-Chain h.memory x (h.lists (e - 6)) e (h.lists (e - 6)) (frees e) (free e high)
                (v.chains e low high)),
        )
        (λ b. omega (arith, v.apart b, pool-update frees e b high (x ∷ frees e)))
    where
      free : (k : ℕ) → k < 31 → at k (frees k) x ≡ 0
      free k g = omega (arith, v.apart x, at-pool frees k x g, inside_self x e)

  pub put_first-Marked :
      (x : ℕ)
      → IsValid h frees (record { addr = x; exp = e } ∷ used)
      → Marked h.memory used
      → Marked (put_first e x h).memory used
  put_first-Marked x v m =
      write-Marked h.memory x (h.lists (e - 6)) used (omega (arith, v.apart x, inside_self x e)) m
