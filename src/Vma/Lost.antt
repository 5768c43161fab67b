-- ===== src/Vma/Lost.antt =====
-- The node that `vma_free` makes drops out of the list when the area behind it is freed.
use libhermit.Base.{
  ℕ, zero, suc, ◌+◌, ◌<◌, ◌≡◌, refl, true, false, Option, none, some, List, [], ◌∷◌, ◌++◌, arith,
  ap, sym, subst, ◌∙◌, ◌==◌, ==-refl, mem, IsDistinct, length, update, update_at, mem-append,
  ptr_eq, if◌then◌else◌,
}
use libhermit.Vma.Defs.{Area, Vmas, vma_max}
use libhermit.Vma.Update.{ok, find_vma, vma_free, split, unlink}
use libhermit.Vma.Areas.{
  Leads, Backs, Fits, covered, covered-frame, within, IsValid, last_stop-le, gap-covered,
}
use libhermit.Vma.Gap.{Leads-frame}
use libhermit.Vma.Free.{split-IsValid}
use libhermit.Vma.Remove.{remove-Fits, remove-covered, remove-IsDistinct}
use libhermit.Vma.Seek.{holds, find_vma-eq}

-- The search comes to the only node whose area contains the range.
module _ (s : Vmas) (start end p : ℕ) (post : List ℕ) (order : start < end)
    (here : holds s start end p ≡ true) where
  find_vma-at :
      (fuel lo : ℕ) (list : Option ℕ) (pre : List ℕ)
      → Leads s.links.next list (pre ++ p ∷ post)
      → Fits s.areas lo vma_max (pre ++ p ∷ post)
      → length pre < fuel
      → find_vma fuel start end s list ≡ some (some p)
  find_vma-at zero lo list pre h f l = absurd (omega (arith, l))
  find_vma-at (suc fuel) lo list [] h f l =
      ap (find_vma (suc fuel) start end s) h.0 ∙ find_vma-eq s start end fuel p true here
  find_vma-at (suc fuel) lo list (x ∷ xs) h f l =
      let (_, before, _, _) = remove-Fits p post s.areas vma_max (s.areas x).stop xs f.2 in
      let up = last_stop-le s.areas vma_max (p ∷ post) (s.areas x).stop xs f.2 in
      let passed : holds s start end x ≡ false = ground (arith, here, before, up) in
      ap (find_vma (suc fuel) start end s) h.0
      ∙ find_vma-eq s start end fuel x false passed
      ∙ find_vma-at fuel (s.areas x).stop (s.links.next x) xs h.1 f.2 (omega (arith, l))

-- The links of `p` go past the new node `n` and past `q`.
module _ (next : ℕ → Option ℕ) (p q n : ℕ) (post : List ℕ) where
  abbrev past : ℕ → Option ℕ
  past = update (update (update next n (next p)) p (some n)) p (next q)

  past-Leads :
      (list : Option ℕ) (pre : List ℕ)
      → mem n (pre ++ p ∷ q ∷ post) ≡ false
      → IsDistinct (pre ++ p ∷ q ∷ post)
      → Leads next list (pre ++ p ∷ q ∷ post)
      → Leads past list (pre ++ p ∷ post)
  past-Leads list [] m d h = (
    h.0,
    rw (==-refl p) (Leads-frame next past (next q) post (λ a k. ground (arith, d.0, m)) h.1.1),
  )
  past-Leads list (x ∷ xs) m d h =
      let apart : (p == x) ≡ false = ground (arith, d.0, mem-append p xs (p ∷ q ∷ post)) in
      let other : (n == x) ≡ false = ground (arith, m) in
      (h.0, rw (apart, other) (past-Leads (next x) xs (ground (arith, m)) d.1 h.1))

list-other :
    (next : ℕ → Option ℕ) (p q : ℕ) (post : List ℕ) (list : Option ℕ) (pre : List ℕ)
    → IsDistinct (pre ++ p ∷ q ∷ post)
    → Leads next list (pre ++ p ∷ q ∷ post)
    → ptr_eq (some q) list ≡ false
list-other next p q post list [] d h = rw h.0 (ground (arith, d.0))
list-other next p q post list (x ∷ xs) d h =
    rw h.0 (ground (arith, d.0, mem-append x xs (p ∷ q ∷ post)))

append_two : (pre : List ℕ) (p n : ℕ) (ys : List ℕ) → pre ++ p ∷ n ∷ ys ≡ (pre ++ p ∷ n ∷ []) ++ ys
append_two [] p n ys = refl
append_two (x ∷ xs) p n ys = ap (λ l. x ∷ l) (append_two xs p n ys)

length-two : (pre : List ℕ) (p n : ℕ) → length (pre ++ p ∷ n ∷ []) ≡ length pre + 2
length-two [] p n = refl
length-two (x ∷ xs) p n = omega (arith, length-two xs p n)

module _ {s : Vmas} (pre post : List ℕ) (p q : ℕ) (v : IsValid s (pre ++ p ∷ q ∷ post))
    (back : Backs s.links.prev none (pre ++ p ∷ q ∷ post)) (n start end : ℕ)
    (fresh : mem n (pre ++ p ∷ q ∷ post) ≡ false) (inner : (s.areas p).start < start)
    (order : start < end) (outer : end < (s.areas p).stop)
    (some_room : (s.areas q).start < (s.areas q).stop) where
  p_not_q : (p == q) ≡ false
  p_not_q =
      ground (arith, (remove-IsDistinct p (q ∷ post) pre v.distinct).0, mem-append p pre (q ∷ post))

  n_not_q : (n == q) ≡ false
  n_not_q = ground (arith, fresh, mem-append n pre (p ∷ q ∷ post))

  abbrev cut : Vmas
  cut = split start end p n s

  same_area : cut.areas q ≡ s.areas q
  same_area = rw (p_not_q, n_not_q) refl

  same_next : cut.links.next q ≡ s.links.next q
  same_next = rw (p_not_q, n_not_q) refl

  Backs-second :
      (prev : ℕ → Option ℕ) (before : Option ℕ) (xs : List ℕ)
      → Backs prev before (xs ++ p ∷ q ∷ post)
      → prev q ≡ some p
  Backs-second prev before [] h = h.1.0
  Backs-second prev before (x ∷ xs) h = Backs-second prev (some x) xs h.1

  same_prev : cut.links.prev q ≡ some p
  same_prev = rw n_not_q (Backs-second s.links.prev none pre back)

  abbrev gone : Vmas
  gone = unlink q cut

  gone-list : gone.list ≡ s.list
  gone-list = rw (list-other s.links.next p q post s.list pre v.distinct v.path) refl

  gone-next : gone.links.next ≡ past s.links.next p q n post
  gone-next =
      ap (λ o. update_at cut.links.next o (cut.links.next q)) same_prev
      ∙ ap (λ r. update cut.links.next p r) same_next

  gone-Leads : Leads gone.links.next gone.list (pre ++ p ∷ post)
  gone-Leads =
      subst (λ (f : ℕ → Option ℕ). Leads f gone.list (pre ++ p ∷ post)) (sym gone-next)
        (subst (λ (l : Option ℕ). Leads (past s.links.next p q n post) l (pre ++ p ∷ post))
          (sym gone-list) (past-Leads s.links.next p q n post s.list pre fresh v.distinct v.path))

  -- The part of `p` behind the range lies in no area that is left.
  parts-covered :
      (b : ℕ)
      → within (s.areas p).start (s.areas p).stop b ≡ true
      → covered s.areas (pre ++ q ∷ post) b ≡ false
  parts-covered b w =
      let (f, l, o, g) = remove-Fits p (q ∷ post) s.areas vma_max 0 pre v.fits in
      gap-covered s.areas vma_max (q ∷ post) 0 b pre f (ground arith) (ground arith)

  not_rest : (mem p (pre ++ post) ≡ false) × (mem n (pre ++ post) ≡ false)
  not_rest = (
    ground (
      arith,
      (remove-IsDistinct p (q ∷ post) pre v.distinct).0,
      mem-append p pre (q ∷ post),
      mem-append p pre post,
    ),
    ground (arith, fresh, mem-append n pre (p ∷ q ∷ post), mem-append n pre post),
  )

  gone-covered :
      (b : ℕ)
      → within end (s.areas p).stop b ≡ true
      → covered gone.areas (pre ++ p ∷ post) b ≡ false
  gone-covered b w =
      let high : ℕ → Area =
        update s.areas n
          (record { start = end; stop = (s.areas p).stop; flags = (s.areas p).flags }) in
      let low : Area = record (s.areas p) { stop = start } in
      let here : gone.areas p ≡ low = ap (λ c. if c then low else high p) (==-refl p) in
      let inside : within (s.areas p).start start b ≡ false = ground arith in
      remove-covered p post gone.areas vma_max pre b
      ∙ ground (
        arith,
        parts-covered b (ground arith),
        remove-covered q post s.areas vma_max pre b,
        covered-frame high p low (pre ++ post) b not_rest.0,
        covered-frame s.areas n
            (record { start = end; stop = (s.areas p).stop; flags = (s.areas p).flags })
            (pre ++ post) b not_rest.1,
        ap (λ (a : Area). within a.start a.stop b) here,
        inside,
      )

  first-call :
      (fuel : ℕ) → length pre < fuel → vma_free fuel start end (some n) s ≡ some (ok, none, cut)
  unfolding vma_free
  first-call fuel enough =
      rw
        (find_vma-at s start end p (q ∷ post) order (ground arith) fuel 0 s.list pre v.path v.fits
          enough)
        (ground arith)

  cut-IsValid : IsValid cut (pre ++ p ∷ n ∷ q ∷ post)
  cut-IsValid = split-IsValid p pre (q ∷ post) v start end order (omega arith) (omega arith) n fresh

  second-call :
      (fuel : ℕ)
      → length pre + 2 < fuel
      → vma_free fuel (s.areas q).start (s.areas q).stop none cut ≡ some (ok, some q, gone)
  unfolding vma_free
  second-call fuel enough =
      rw
        (find_vma-at cut (s.areas q).start (s.areas q).stop q post some_room
          (rw same_area (ground arith)) fuel 0 s.list (pre ++ p ∷ n ∷ [])
          (subst (Leads cut.links.next s.list) (append_two pre p n (q ∷ post)) cut-IsValid.path)
          (subst (Fits cut.areas 0 vma_max) (append_two pre p n (q ∷ post)) cut-IsValid.fits)
          (omega (arith, length-two pre p n)))
        (rw same_area (ground arith))

  -- In a valid list with right `prev` links, where the node `q` with an area that is not empty
  -- follows the node `p`, and with fuel for the nodes in front of `q`: a range that leaves
  -- something of the area of `p` on both sides is freed with the new node `n`, and then the whole
  -- area of `q`. Both calls return 0, but the second one also takes `n` out of the list, so that
  -- the addresses of the area of `p` behind the range, which were used and which neither call was
  -- asked to free, lie in no area of the list any more.
  pub vma_free-loses :
      (fuel : ℕ)
      → length pre + 2 < fuel
      → (s1 s2 : Vmas) × (vma_free fuel start end (some n) s ≡ some (ok, none, s1))
        × (vma_free fuel (s.areas q).start (s.areas q).stop none s1 ≡ some (ok, some q, s2))
        × Leads s2.links.next s2.list (pre ++ p ∷ post)
        × ((b : ℕ)
            → within end (s.areas p).stop b ≡ true
            → (covered s.areas (pre ++ p ∷ q ∷ post) b ≡ true)
              × (covered s2.areas (pre ++ p ∷ post) b ≡ false))
  vma_free-loses fuel enough = (
    cut,
    gone,
    first-call fuel (omega (arith, enough)),
    second-call fuel enough,
    gone-Leads,
    λ b w. (remove-covered p (q ∷ post) s.areas vma_max pre b ∙ ground arith, gone-covered b w),
  )
