-- ===== src/Vma/Remove.antt =====
-- An area taken out of the list of areas: the addresses that stay covered, and the links.
use libhermit.Base.{
  ℕ, ◌≤◌, ◌≡◌, refl, false, Option, none, some, List, [], ◌∷◌, ◌++◌, arith, sym, subst, subst₂,
  ptr_eq, ◌==◌, ==-refl, ◌||◌, if◌then◌else◌, mem, IsDistinct, update, update_at, mem-append,
}
use libhermit.Vma.Defs.{Area}
use libhermit.Vma.Areas.{
  Leads, Backs, Fits, covered, within, last_of, first_of, last_stop, first_start, Fits-lower,
}
use libhermit.Vma.Gap.{Leads-first, Leads-frame, last_of-some, last_of-mem}

module _ (p : ℕ) (post : List ℕ) where
  pub Backs-at :
      (prev : ℕ → Option ℕ) (before : Option ℕ) (pre : List ℕ)
      → Backs prev before (pre ++ p ∷ post)
      → prev p ≡ last_of before pre
  Backs-at prev before [] h = h.0
  Backs-at prev before (x ∷ xs) h = Backs-at prev (some x) xs h.1

  pub Leads-at :
      (next : ℕ → Option ℕ) (q : Option ℕ) (pre : List ℕ)
      → Leads next q (pre ++ p ∷ post)
      → next p ≡ first_of post
  Leads-at next q [] h = Leads-first next (next p) post h.1
  Leads-at next q (x ∷ xs) h = Leads-at next (next x) xs h.1

  pub remove-IsDistinct :
      (pre : List ℕ)
      → IsDistinct (pre ++ p ∷ post)
      → (mem p (pre ++ post) ≡ false) × IsDistinct (pre ++ post)
  remove-IsDistinct [] d = d
  remove-IsDistinct (x ∷ xs) d =
      let (m, e) = remove-IsDistinct xs d.1 in
      (
        ground (arith, d.0, m, mem-append x xs (p ∷ post)),
        (ground (arith, d.0, mem-append x xs (p ∷ post), mem-append x xs post), e),
      )

  module _ (areas : ℕ → Area) (hi : ℕ) where
    pub remove-Fits :
        (lo : ℕ) (pre : List ℕ)
        → Fits areas lo hi (pre ++ p ∷ post)
        → Fits areas lo hi (pre ++ post)
          × (last_stop areas lo pre ≤ (areas p).start)
          × ((areas p).start ≤ (areas p).stop)
          × ((areas p).stop ≤ first_start areas hi post)
    remove-Fits lo [] h =
        let g : (areas p).stop ≤ first_start areas hi post = first post h.2 in
        (Fits-lower areas (areas p).stop lo hi post h.2 (omega (arith, h.0, h.1)), h.0, h.1, g)
      where
        first :
            (ids : List ℕ)
            → Fits areas (areas p).stop hi ids
            → (areas p).stop ≤ first_start areas hi ids
        first [] f = f
        first (y ∷ ys) f = f.0
    remove-Fits lo (x ∷ xs) h =
        let (f, l, o, g) = remove-Fits (areas x).stop xs h.2 in ((h.0, h.1, f), l, o, g)

    pub remove-covered :
        (pre : List ℕ) (b : ℕ)
        → covered areas (pre ++ p ∷ post) b
          ≡ (covered areas (pre ++ post) b || within (areas p).start (areas p).stop b)
    remove-covered [] b = ground arith
    remove-covered (x ∷ xs) b = ground (arith, remove-covered xs b)

module _ (next : ℕ → Option ℕ) (p : ℕ) (post : List ℕ) where
  -- The node is taken out behind `x`.
  unlink-Leads_behind :
      (x : ℕ) (pre : List ℕ) (z : ℕ)
      → last_of (some x) pre ≡ some z
      → IsDistinct (x ∷ pre ++ p ∷ post)
      → Leads next (some x) (x ∷ pre ++ p ∷ post)
      → Leads (update next z (next p)) (some x) (x ∷ pre ++ post)
  unlink-Leads_behind x [] z e d h =
      let same : z ≡ x = cc in
      (
        refl,
        subst (λ y. Leads (update next y (next p)) (update next y (next p) x) post) (sym same)
            (rw (==-refl x) (
              Leads-frame next (update next x (next p)) (next p) post (λ a m. ground (arith, d.0))
                h.1.1)),
      )
  unlink-Leads_behind x (y ∷ ys) z e d h =
      let apart : (z == x) ≡ false =
        ground (arith, d.0, last_of-mem y z ys e, mem-append z (y ∷ ys) (p ∷ post)) in
      (refl, (rw apart h.1.0, (unlink-Leads_behind y ys z e d.1 (refl, h.1.1)).1))

  pub unlink-Leads :
      (list : Option ℕ) (pre : List ℕ)
      → IsDistinct (pre ++ p ∷ post)
      → Leads next list (pre ++ p ∷ post)
      → Leads
          (update_at next (last_of none pre) (next p))
          (if ptr_eq (some p) list then next p else list)
          (pre ++ post)
  unlink-Leads list [] d h = rw (h.0, ==-refl p) h.1
  unlink-Leads list (x ∷ xs) d h =
      let (z, e, k) = last_of-some x xs in
      let apart : (p == x) ≡ false = ground (arith, d.0, mem-append p xs (p ∷ post)) in
      let same : (if ptr_eq (some p) list then next p else list) ≡ some x = rw (h.0, apart) refl in
      subst₂ (λ o q. Leads (update_at next o (next p)) q (x ∷ xs ++ post)) (sym e) (sym same)
        (unlink-Leads_behind x xs z e d (refl, h.1))

  -- A new node is put behind `p`.
  pub split-Leads :
      (n : ℕ) (list : Option ℕ) (pre : List ℕ)
      → mem n (pre ++ p ∷ post) ≡ false
      → IsDistinct (pre ++ p ∷ post)
      → Leads next list (pre ++ p ∷ post)
      → Leads (update (update next n (next p)) p (some n)) list (pre ++ p ∷ n ∷ post)
  split-Leads n list [] m d h =
      let apart : (p == n) ≡ false = ground (arith, m) in
      (
        h.0,
        (
          rw (==-refl p) refl,
          rw (apart, ==-refl n)
              (Leads-frame next (update (update next n (next p)) p (some n)) (next p) post
                (λ a k. ground (arith, d.0, m)) h.1),
        ),
      )
  split-Leads n list (x ∷ xs) m d h =
      let apart : (p == x) ≡ false = ground (arith, d.0, mem-append p xs (p ∷ post)) in
      let other : (n == x) ≡ false = ground (arith, m) in
      (h.0, rw (apart, other) (split-Leads n (next x) xs (ground (arith, m)) d.1 h.1))

  pub split-IsDistinct :
      (n : ℕ) (pre : List ℕ)
      → mem n (pre ++ p ∷ post) ≡ false
      → IsDistinct (pre ++ p ∷ post)
      → IsDistinct (pre ++ p ∷ n ∷ post)
  split-IsDistinct n [] m d = (ground (arith, m, d.0), (ground (arith, m), d.1))
  split-IsDistinct n (x ∷ xs) m d = (
    ground (arith, d.0, m, mem-append x xs (p ∷ n ∷ post), mem-append x xs (p ∷ post)),
    split-IsDistinct n xs (ground (arith, m)) d.1,
  )
