-- ===== src/Vma/Alloc.antt =====
-- `vma_alloc` reserves addresses that were free.
use libhermit.Base.{
  ℕ, ◌+◌, ◌%◌, ◌^◌, ◌≤◌, ◌<◌, ◌≡◌, refl, true, false, Option, none, some, List, [], ◌∷◌, ◌++◌,
  arith, ap, ◌∙◌, sym, subst, subst₂, subst₃, ◌==◌, ◌&&◌, ◌||◌, if◌then◌else◌, mem, length, inl,
  inr, ◌⊎◌, if-elim,
}
use native.Mathlib.Nat.{mod-eq_of_lt}
use libhermit.Vma.Defs.{
  Area, Vmas, gap_start, gap_end, gap_fits, vma_min, vma_max, page_ceil, take_gap, insert_new,
  insert_vma, resize, vma_alloc,
}
use libhermit.Vma.Areas.{
  Backs, Fits, covered, within, IsValid, last_of, first_of, last_stop, first_start, insert-Fits,
  insert-covered, gap-covered,
}
use libhermit.Vma.Back.{insert-Backs}
use libhermit.Vma.Gap.{
  Gap, find_gap-Found, resize-Fits, resize-covered, insert-Leads_gap, insert-IsDistinct,
  last_of-some,
}

-- The node that `kmalloc` returns is not in the list.
abbrev pub IsNew : Option ℕ → List ℕ → Type 0
IsNew none ids = Unit
IsNew (some n) ids = mem n ids ≡ false

-- The addresses from `start` to `end` were free, lie in the bounds, and are the only ones that are
-- used now and were not before.
pub record Reserved (s s' : Vmas) (ids ids' : List ℕ) (start end : ℕ) : Type 0 where
  pub above : vma_min ≤ start
  pub below : end < vma_max
  pub were_free : (b : ℕ) → (within start end b && covered s.areas ids b) ≡ false
  pub are_used : (b : ℕ) → covered s'.areas ids' b ≡ (covered s.areas ids b || within start end b)

pub last_stop-gap_start :
    (areas : ℕ → Area) (x lo base : ℕ) (pre : List ℕ)
    → last_stop areas lo (x ∷ pre) ≡ gap_start areas (last_of (some x) pre) base
last_stop-gap_start areas x lo base [] = refl
last_stop-gap_start areas x lo base (y ∷ ys) = last_stop-gap_start areas y (areas x).stop base ys

first_start-gap_end :
    (areas : ℕ → Area) (hi : ℕ) (post : List ℕ)
    → first_start areas hi post ≡ gap_end areas (first_of post) hi
first_start-gap_end areas hi [] = refl
first_start-gap_end areas hi (y ∷ ys) = refl

last_stop-bound :
    (areas : ℕ → Area) (lo hi : ℕ) (pre post : List ℕ)
    → Fits areas lo hi (pre ++ post)
    → last_stop areas lo pre ≤ hi
last_stop-bound areas lo hi [] post h = whole post lo h
  where
    whole : (ids : List ℕ) (lo : ℕ) → Fits areas lo hi ids → lo ≤ hi
    whole [] lo h = h
    whole (x ∷ xs) lo h = omega (arith, whole xs (areas x).stop h.2, h.0, h.1)
last_stop-bound areas lo hi (x ∷ xs) post h = last_stop-bound areas (areas x).stop hi xs post h.2

module _ {s : Vmas} (pre post : List ℕ) (v : IsValid s (pre ++ post)) (start size : ℕ)
    (behind : last_stop s.areas 0 pre ≤ start) (above : vma_min ≤ start)
    (before : start + size < first_start s.areas vma_max post)
    (below : start + size < vma_max) where
  free : (b : ℕ) → (within start (start + size) b && covered s.areas (pre ++ post) b) ≡ false
  free b = ground (arith, gap-covered s.areas vma_max post 0 b pre v.fits)

  abbrev area : ℕ → Area
  area flags = record { start = start; stop = start + size; flags = flags }

  abbrev inserted : ℕ → ℕ → Vmas
  inserted n flags = insert_vma n (area flags) (last_of none pre) (first_of post) s

  insert-Reserved :
      (n flags : ℕ)
      → mem n (pre ++ post) ≡ false
      → Reserved s (inserted n flags) (pre ++ post) (pre ++ n ∷ post) start (start + size)
  insert-Reserved n flags m = record {
    above = above;
    below = below;
    were_free = free;
    are_used = λ b. insert-covered s.areas vma_max n (area flags) post pre b m;
  }

  insert-IsValid :
      (n flags : ℕ) → mem n (pre ++ post) ≡ false → IsValid (inserted n flags) (pre ++ n ∷ post)
  insert-IsValid n flags m = record {
    path = insert-Leads_gap s.links.next n post s.list pre m v.distinct v.path;
    distinct = insert-IsDistinct s.links.next n post pre m v.distinct;
    fits =
        insert-Fits s.areas vma_max n (area flags) post 0 pre m v.fits behind (omega arith)
          (omega arith);
  }

module _ {s : Vmas} (x p : ℕ) (xs post : List ℕ) (v : IsValid s (x ∷ xs ++ post)) (size : ℕ)
    (last : last_of (some x) xs ≡ some p) (above : vma_min ≤ (s.areas p).stop)
    (before : (s.areas p).stop + size < first_start s.areas vma_max post)
    (below : (s.areas p).stop + size < vma_max) where
  start-eq : last_stop s.areas 0 (x ∷ xs) ≡ (s.areas p).stop
  start-eq = last_stop-gap_start s.areas x 0 vma_min xs ∙ ap (λ o. gap_start s.areas o vma_min) last

  resize-Reserved :
      Reserved s
        (resize p ((s.areas p).stop + size) s)
        (x ∷ xs ++ post)
        (x ∷ xs ++ post)
        (s.areas p).stop
        ((s.areas p).stop + size)
  resize-Reserved = record {
    above = above;
    below = below;
    were_free =
        free (x ∷ xs) post v (s.areas p).stop size (omega (arith, start-eq)) above before below;
    are_used = λ b.
        resize-covered s.areas vma_max p ((s.areas p).stop + size) post 0 x xs b last v.distinct
          v.fits (omega (arith, start-eq))
        ∙ ap (λ m. covered s.areas (x ∷ xs ++ post) b || within m ((s.areas p).stop + size) b)
            start-eq;
  }

  resize-IsValid : IsValid (resize p ((s.areas p).stop + size) s) (x ∷ xs ++ post)
  resize-IsValid = record {
    path = v.path;
    distinct = v.distinct;
    fits =
        resize-Fits s.areas vma_max p ((s.areas p).stop + size) post 0 x xs last v.distinct v.fits
          (omega (arith, start-eq)) (omega arith);
  }

-- What a call of `vma_alloc` has come to: 0 and nothing changed, or the start of a reserved range.
abbrev pub Allocated : Vmas → List ℕ → ℕ → Option (ℕ × Vmas) → Type 0
Allocated s ids size r =
    (start : ℕ) × (s' : Vmas) × (ids' : List ℕ) × (r ≡ some (start, s'))
    × IsValid s' ids'
    × (Backs s.links.prev none ids → Backs s'.links.prev none ids')
    × (((start ≡ 0) × (s' ≡ s) × (ids' ≡ ids)) ⊎ Reserved s s' ids ids' start (start + size))

-- In the bounds, the sums of the search do not wrap around.
room_lem :
    (size start end : ℕ)
    → size ≤ 2 ^ 40
    → start ≤ vma_max
    → gap_fits size start end ≡ true
    → ((start + size) % 2 ^ 64 ≡ start + size)
      × (start + size < end)
      × (vma_min ≤ start)
      × (start + size < vma_max)
room_lem size start end h g room =
    let small : start + size < 2 ^ 64 = omega arith in
    let same : (start + size) % 2 ^ 64 ≡ start + size = mod-eq_of_lt small in
    (same, ground arith, ground arith, ground arith)

module _ {s : Vmas} (post : List ℕ) (size flags : ℕ) (bound : size ≤ 2 ^ 40) where
  unchanged : (ids : List ℕ) → IsValid s ids → Allocated s ids size (some (0, s))
  unchanged ids v = (0, s, ids, refl, v, λ k. k, inl (refl, refl, refl))

  module _ (pre : List ℕ) (v : IsValid s (pre ++ post)) (start : ℕ)
      (behind : last_stop s.areas 0 pre ≤ start)
      (room : gap_fits size start (gap_end s.areas (first_of post) vma_max) ≡ true)
      (bounded : start ≤ vma_max) where
    inserted-Allocated :
        (new : Option ℕ)
        → IsNew new (pre ++ post)
        → let (done, s') =
            insert_new new
              (record { start = start; stop = (start + size) % 2 ^ 64; flags = flags })
              (last_of none pre)
              (first_of post)
              s in
          Allocated s (pre ++ post) size (some (if done then start else 0, s'))
    inserted-Allocated none w = unchanged (pre ++ post) v
    inserted-Allocated (some n) w =
        let (same, before, above, below) =
          room_lem size start (gap_end s.areas (first_of post) vma_max) bound bounded room in
        let room' : start + size < first_start s.areas vma_max post =
          omega (arith, first_start-gap_end s.areas vma_max post) in
        subst
          (λ e. Allocated s (pre ++ post) size (
            some (
              start,
              insert_vma n (record { start = start; stop = e; flags = flags }) (last_of none pre)
                  (first_of post) s,
            )))
          (sym same)
          (
            start,
            _,
            pre ++ n ∷ post,
            refl,
            insert-IsValid pre post v start size behind above room' below n flags w,
            λ k. insert-Backs n post s.links.prev none pre w v.distinct k,
            inr (insert-Reserved pre post v start size behind above room' below n flags w),
          )

  resized-Allocated :
      (x p : ℕ) (xs : List ℕ) (v : IsValid s (x ∷ xs ++ post))
      → last_of (some x) xs ≡ some p
      → (s.areas p).stop ≤ vma_max
      → gap_fits size (s.areas p).stop (gap_end s.areas (first_of post) vma_max) ≡ true
      → Allocated s
          (x ∷ xs ++ post)
          size
          (some ((s.areas p).stop, resize p (((s.areas p).stop + size) % 2 ^ 64) s))
  resized-Allocated x p xs v last bounded room =
      let (same, before, above, below) =
        room_lem size (s.areas p).stop (gap_end s.areas (first_of post) vma_max) bound bounded
          room in
      let room' : (s.areas p).stop + size < first_start s.areas vma_max post =
        omega (arith, first_start-gap_end s.areas vma_max post) in
      subst (λ e. Allocated s (x ∷ xs ++ post) size (some ((s.areas p).stop, resize p e s)))
        (sym same)
        (
          (s.areas p).stop,
          _,
          x ∷ xs ++ post,
          refl,
          resize-IsValid x p xs post v size last above room' below,
          λ k. k,
          inr (resize-Reserved x p xs post v size last above room' below),
        )

  take_gap-Allocated :
      (new : Option ℕ) (pre : List ℕ)
      → IsValid s (pre ++ post)
      → IsNew new (pre ++ post)
      → gap_fits size
          (gap_start s.areas (last_of none pre) vma_min)
          (gap_end s.areas (first_of post) vma_max)
        ≡ true
      → Allocated s
          (pre ++ post)
          size
          (some (take_gap size flags new (last_of none pre) (first_of post) s))
  take_gap-Allocated new [] v w room =
      inserted-Allocated [] v vma_min (omega arith) room (omega arith) new w
  take_gap-Allocated new (x ∷ xs) v w room =
      let (p, last, _) = last_of-some x xs in
      let room' =
        subst
          (λ o.
            gap_fits size (gap_start s.areas o vma_min) (gap_end s.areas (first_of post) vma_max)
            ≡ true)
          last room in
      let start-eq =
        last_stop-gap_start s.areas x 0 vma_min xs ∙ ap (λ o. gap_start s.areas o vma_min) last in
      let bounded : (s.areas p).stop ≤ vma_max =
        omega (arith, start-eq, last_stop-bound s.areas 0 vma_max (x ∷ xs) post v.fits) in
      subst
        (λ o.
          Allocated s (x ∷ xs ++ post) size (some (take_gap size flags new o (first_of post) s)))
        (sym last)
        (if-elim (λ r. Allocated s (x ∷ xs ++ post) size (some r)) ((s.areas p).flags == flags)
          ((s.areas p).stop, resize p (((s.areas p).stop + size) % 2 ^ 64) s) _
          (λ e. resized-Allocated x p xs v last bounded room')
          (λ e.
            subst
              (λ o.
                let (done, s') =
                  insert_new new
                    (record {
                      start = (s.areas p).stop;
                      stop = ((s.areas p).stop + size) % 2 ^ 64;
                      flags = flags;
                    })
                    o (first_of post) s in
                Allocated s (x ∷ xs ++ post) size (some (if done then (s.areas p).stop else 0, s')))
              last
              (inserted-Allocated (x ∷ xs) v (s.areas p).stop (omega (arith, start-eq)) room'
                bounded new w)))

page_ceil-bound : (size : ℕ) → size ≤ 2 ^ 40 → page_ceil size ≤ 2 ^ 40
page_ceil-bound size h = omega arith

module _ {s : Vmas} {ids : List ℕ} (v : IsValid s ids) where
  -- For at most 2 ^ 40 bytes, and fuel above the number of nodes, `vma_alloc` returns. Either the
  -- result is 0 and nothing changes, or it is the start of a range of PAGE_CEIL(size) addresses in
  -- the bounds that were free, and exactly these addresses become used. The list stays valid, and
  -- its `prev` links are right if they were.
  pub vma_alloc-Allocated :
      (fuel size flags : ℕ) (new : Option ℕ)
      → IsNew new ids
      → length ids < fuel
      → size ≤ 2 ^ 40
      → Allocated s ids (page_ceil size) (vma_alloc fuel size flags new s)
  unfolding vma_alloc
  vma_alloc-Allocated fuel size flags new w enough bound =
      elim (find_gap-Found fuel (page_ceil size) s none s.list ids v.path enough) [
        | inl e ↦
            subst (Allocated s ids (page_ceil size)) (sym (ap answer e))
              (0, s, ids, refl, v, λ k. k, inl (refl, refl, refl))
        | inr (pred, succ, e, g) ↦
            subst (Allocated s ids (page_ceil size)) (sym (ap answer e)) (taken pred succ g)
      ]
    where
      answer : Option (Option (Option ℕ × Option ℕ)) → Option (ℕ × Vmas)
      answer r = elim r [
        | none ↦ none
        | some none ↦ some (0, s)
        | some (some (pred, succ)) ↦ some (take_gap (page_ceil size) flags new pred succ s)
      ]

      taken :
          (pred succ : Option ℕ)
          → Gap s (page_ceil size) none ids pred succ
          → Allocated s ids
              (page_ceil size)
              (some (take_gap (page_ceil size) flags new pred succ s))
      taken pred succ g =
          subst₃
            (λ l p q.
              Allocated s l (page_ceil size) (some (take_gap (page_ceil size) flags new p q s)))
            (sym g.parts) (sym g.before) (sym g.behind)
            (take_gap-Allocated g.post (page_ceil size) flags (page_ceil-bound size bound) new g.pre
              (subst (IsValid s) g.parts v) (subst (IsNew new) g.parts w)
              (subst₂
                (λ p q.
                  gap_fits (page_ceil size) (gap_start s.areas p vma_min)
                    (gap_end s.areas q vma_max)
                  ≡ true)
                g.before g.behind g.room))
