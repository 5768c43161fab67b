-- ===== src/Buddy/Get.antt =====
-- `buddy_get` takes a block out of the heap.
use libhermit.Base.{
  ℕ, zero, suc, ◌+◌, ◌-◌, ◌%◌, ◌^◌, ◌≤◌, ◌<◌, ◌≡◌, refl, ap, ◌∙◌, sym, subst, Bool, true, false,
  Option, none, some, List, ◌∷◌, arith, ltb, leb, ◌==◌, ◌&&◌, not, update, inl, inr, Bool-cases,
  if-elim,
}
use libhermit.Buddy.Defs.{
  Heap, one_shl, avail_loop, buddy_large_avail, take_first, put_first, split_buddy, buddy_get,
}
use libhermit.Buddy.Size.{pow-pos, pow-double, one_shl-small}
use libhermit.Buddy.Pool.{Block, IsValid, Marked, inside-halves}
use libhermit.Buddy.Lists.{Fresh, Got, take_first-Got, put_first-IsValid, put_first-Marked}

module _ (left : ℕ) (h : Heap) (exp : ℕ) where
  abbrev loop_step : Bool → ℕ
  loop_step b = elim b [ true ↦ avail_loop left h (exp + 1) | false ↦ exp ]

  avail_loop-eq :
      (b : Bool)
      → (ltb exp 32 && h.lists (exp - 6) == 0) ≡ b
      → avail_loop (suc left) h exp ≡ loop_step b
  unfolding avail_loop
  avail_loop-eq b e = ap loop_step e

-- No list above the exponent 30 has a block.
no_larger : (h : Heap) → (h.lists 24 == 0) ≡ true → h.lists 25 ≡ 0 → buddy_large_avail h 30 ≡ false
unfolding avail_loop
no_larger h z t =
    ap (λ r. not (r == 32))
      (avail_loop-eq 1 h 30 true z ∙ avail_loop-eq 0 h 31 true (ap (λ n. n == 0) t))

module _ (fuel : ℕ) (pages : ℕ → ℕ) (e : ℕ) (h : Heap) where
  abbrev split_all : Option (ℕ × Heap) → Option (ℕ × Heap)
  split_all r = elim r [ none ↦ none | some r ↦ some (split_buddy e r) ]

  abbrev inner : Bool → Option (ℕ × Heap)
  inner c = elim c [
    | true ↦ some (pages (one_shl e), h)
    | false ↦ split_all (buddy_get fuel pages (e + 1) h)
  ]

  abbrev outer : Bool → Option (ℕ × Heap)
  outer b = elim b [
    | false ↦ some (take_first e h)
    | true ↦ inner (leb 16 e && not (buddy_large_avail h e))
  ]

  pub buddy_get-outer :
      (b : Bool) → (h.lists (e - 6) == 0) ≡ b → buddy_get (suc fuel) pages e h ≡ outer b
  unfolding buddy_get
  buddy_get-outer b q = ap outer q

-- The second half of a block of twice the size goes to the list.
module _ (used : List Block) (e : ℕ) (low : 6 ≤ e) (high : e < 31) where
  halves-Got :
      (a : ℕ) (h : Heap) (frees : ℕ → List ℕ)
      → Marked h.memory used
      → 0 < a
      → a + 2 ^ (e + 1) ≤ 2 ^ 64
      → IsValid h frees (record { addr = a; exp = e + 1 } ∷ used)
      → Got used e (some (a, put_first e ((a + one_shl e) % 2 ^ 64) h))
  halves-Got a h frees m p l v =
      let double : a + 2 ^ e + 2 ^ e ≤ 2 ^ 64 = omega (arith, pow-double e) in
      let second : (a + one_shl e) % 2 ^ 64 ≡ a + 2 ^ e =
        omega (arith, one_shl-small e high, pow-pos e) in
      let both : IsValid h frees
          (record { addr = a + 2 ^ e; exp = e } ∷ record { addr = a; exp = e } ∷ used) =
        record {
          chains = v.chains;
          top = v.top;
          apart = λ b. omega (arith, v.apart b, inside-halves a e b);
        } in
      let one : IsValid h frees (record { addr = a + 2 ^ e; exp = e } ∷ used) = record {
        chains = v.chains;
        top = v.top;
        apart = λ b. omega (arith, both.apart b);
      } in
      subst (λ w. Got used e (some (a, put_first e w h))) (sym second)
        (
          a,
          put_first e (a + 2 ^ e) h,
          update frees e ((a + 2 ^ e) ∷ frees e),
          refl,
          put_first-Marked h frees used e low high (a + 2 ^ e) one m,
          inr (
            p,
            omega arith,
            put_first-IsValid h frees (record { addr = a; exp = e } ∷ used) e low high (a + 2 ^ e)
                both (omega arith) double,
          ),
        )

  split-Got :
      (r : Option (ℕ × Heap))
      → Got used (e + 1) r
      → Got used e (elim r [ none ↦ none | some r ↦ some (split_buddy e r) ])
  split-Got r (a, h, frees, q, m, inl (z, v)) =
      subst (λ r. Got used e (elim r [ none ↦ none | some r ↦ some (split_buddy e r) ])) (sym q)
        (if-elim (λ r. Got used e (some r)) (a == 0) _ _
          (λ c. (0, h, frees, refl, m, inl (refl, v))) (λ c. absurd (ground arith)))
  split-Got r (a, h, frees, q, m, inr (p, l, v)) =
      subst (λ r. Got used e (elim r [ none ↦ none | some r ↦ some (split_buddy e r) ])) (sym q)
        (if-elim (λ r. Got used e (some r)) (a == 0) _ _ (λ c. absurd (ground arith))
          (λ c. halves-Got a h frees m p l v))

module _ (pages : ℕ → ℕ) (h : Heap) (frees : ℕ → List ℕ) (used : List Block)
    (v : IsValid h frees used) (m : Marked h.memory used) (fresh : Fresh pages frees used) where
  pages-Got : (e : ℕ) → 16 ≤ e → e < 31 → Got used e (some (pages (one_shl e), h))
  pages-Got e low high =
      subst (λ n. Got used e (some (pages n, h))) (sym (one_shl-small e high))
        (elim (fresh e low high) [
          | inl z ↦ (pages (2 ^ e), h, frees, refl, m, inl (z, v))
          | inr (p, l, a) ↦ (
            pages (2 ^ e),
            h,
            frees,
            refl,
            m,
            inr (p, l, record { chains = v.chains; top = v.top; apart = λ b. omega (arith, a b) }),
          )
        ])

  -- In a valid heap, with an exponent from 6 to 30, fuel for the exponents that are left, and a
  -- `palloc` that returns memory outside of the heap, `buddy_get` returns. The result is NULL or a
  -- block of its own: the heap stays valid with it among the blocks that are handed out, so that it
  -- has no address in common with a free block or another block.
  pub buddy_get-Got :
      (fuel e : ℕ) → 6 ≤ e → e < 31 → 31 ≤ e + fuel → Got used e (buddy_get fuel pages e h)
  buddy_get-Got zero e low high f = absurd (omega arith)
  buddy_get-Got (suc fuel) e low high f = elim (Bool-cases (h.lists (e - 6) == 0)) [
    | inr c ↦
        subst (Got used e) (sym (buddy_get-outer fuel pages e h false c))
          (take_first-Got h frees used e low high (frees e) refl v m c)
    | inl c ↦
        subst (Got used e) (sym (buddy_get-outer fuel pages e h true c))
          (elim (Bool-cases (leb 16 e && not (buddy_large_avail h e))) [
            | inl d ↦
                subst (Got used e) (sym (ap (inner fuel pages e h) d))
                  (pages-Got e (ground arith) high)
            | inr d ↦ subst (Got used e) (sym (ap (inner fuel pages e h) d)) (
                split-Got used e low high (buddy_get fuel pages (e + 1) h)
                  (buddy_get-Got fuel (e + 1) (omega arith) (below c d) (omega arith)))
          ])
  ]
    where
      below :
          (h.lists (e - 6) == 0) ≡ true
          → (leb 16 e && not (buddy_large_avail h e)) ≡ false
          → e + 1 < 31
      below c d = elim (Bool-cases (e == 30)) [
        | inl same ↦
            let eq : e ≡ 30 = ground arith in
            absurd (
              ground (
                arith,
                no_larger h (subst (λ e. (h.lists (e - 6) == 0) ≡ true) eq c) v.top,
                subst (λ e. (leb 16 e && not (buddy_large_avail h e)) ≡ false) eq d,
              ))
        | inr other ↦ ground arith
      ]
