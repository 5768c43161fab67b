-- ===== src/Vma/Free.antt =====
-- `vma_free` takes addresses out of the area that contains them.
use libhermit.Base.{
  ℕ, ◌≤◌, ◌<◌, ◌≡◌, refl, Bool, true, false, Option, none, some, List, [], ◌∷◌, ◌++◌, arith, ap,
  sym, subst, leb, ◌==◌, ==-refl, ◌&&◌, ◌||◌, not, mem, length, update, inl, inr, ◌⊎◌, if-elim,
  mem-append,
}
use libhermit.Vma.Defs.{Area, Vmas, vma_max}
use libhermit.Vma.Update.{Code, ok, einval, enomem, find_vma, unlink, split, free_in, vma_free}
use libhermit.Vma.Areas.{
  Backs, covered, within, IsValid, last_stop, first_start, insert-Fits, insert-covered, gap-covered,
}
use libhermit.Vma.Alloc.{IsNew}
use libhermit.Vma.Remove.{
  Backs-at, remove-IsDistinct, remove-Fits, remove-covered, unlink-Leads, split-Leads,
  split-IsDistinct,
}
use libhermit.Vma.Seek.{holds, find_vma-Found}

-- The addresses from `start` to `end` were used, and are the only ones that were used and are not
-- now.
pub record Gone (s s' : Vmas) (ids ids' : List ℕ) (start end : ℕ) : Type 0 where
  pub were_used : (b : ℕ) → within start end b ≡ true → covered s.areas ids b ≡ true
  pub are_free :
      (b : ℕ) → covered s'.areas ids' b ≡ (covered s.areas ids b && not (within start end b))

-- What the call has come to.
abbrev pub Outcome : Vmas → List ℕ → ℕ → ℕ → Option ℕ → Code → Vmas → List ℕ → Type 0
Outcome s ids start end new einval s' ids' =
    (s' ≡ s)
    × (ids' ≡ ids)
    × ((end ≤ start) ⊎ ((x : ℕ) → mem x ids ≡ true → holds s start end x ≡ false))
Outcome s ids start end new enomem s' ids' = (s' ≡ s) × (ids' ≡ ids) × (new ≡ none)
Outcome s ids start end new ok s' ids' = Gone s s' ids ids' start end

abbrev pub Freed : Vmas → List ℕ → ℕ → ℕ → Option ℕ → Option (Code × Option ℕ × Vmas) → Type 0
Freed s ids start end new r =
    (code : Code) × (node : Option ℕ) × (s' : Vmas) × (ids' : List ℕ) × (r ≡ some (code, node, s'))
    × IsValid s' ids'
    × Outcome s ids start end new code s' ids'

last_stop-frame :
    (areas : ℕ → Area) (n : ℕ) (a : Area) (lo : ℕ) (pre : List ℕ)
    → mem n pre ≡ false
    → last_stop (update areas n a) lo pre ≡ last_stop areas lo pre
last_stop-frame areas n a lo [] m = refl
last_stop-frame areas n a lo (x ∷ xs) m =
    let apart : (n == x) ≡ false = ground arith in
    rw apart (last_stop-frame areas n a (areas x).stop xs (ground arith))

-- The range lies in the area of `p`.
module _ {s : Vmas} (p : ℕ) (pre post : List ℕ) (v : IsValid s (pre ++ p ∷ post)) (start end : ℕ)
    (order : start < end) (low : (s.areas p).start ≤ start) (high : end ≤ (s.areas p).stop) where
  abbrev rest : ℕ → Bool
  rest b = covered s.areas (pre ++ post) b

  covered-parts :
      (b : ℕ)
      → covered s.areas (pre ++ p ∷ post) b
        ≡ (rest b || within (s.areas p).start (s.areas p).stop b)
  covered-parts b = remove-covered p post s.areas vma_max pre b

  apart : (b : ℕ) → within (s.areas p).start (s.areas p).stop b ≡ true → rest b ≡ false
  apart b w =
      let (f, l, o, g) = remove-Fits p post s.areas vma_max 0 pre v.fits in
      gap-covered s.areas vma_max post 0 b pre f (ground arith) (ground arith)

  -- What is left of the area are the addresses `left`.
  left-Gone :
      (s' : Vmas) (ids' : List ℕ) (left : ℕ → Bool)
      → ((b : ℕ) → covered s'.areas ids' b ≡ (rest b || left b))
      → ((b : ℕ)
          → left b ≡ (within (s.areas p).start (s.areas p).stop b && not (within start end b)))
      → Gone s s' (pre ++ p ∷ post) ids' start end
  left-Gone s' ids' left c e = record {
    were_used = λ b w. ground (arith, covered-parts b);
    are_free = λ b. ground (arith, c b, e b, covered-parts b, apart b);
  }

  -- The whole area.
  unlink-Freed :
      (new : Option ℕ)
      → Backs s.links.prev none (pre ++ p ∷ post)
      → start ≡ (s.areas p).start
      → end ≡ (s.areas p).stop
      → Freed s (pre ++ p ∷ post) start end new (some (ok, some p, unlink p s))
  unlink-Freed new back e f = (
    ok,
    some p,
    unlink p s,
    pre ++ post,
    refl,
    record {
      path =
          rw (Backs-at p post s.links.prev none pre back)
            (unlink-Leads s.links.next p post s.list pre v.distinct v.path);
      distinct = (remove-IsDistinct p post pre v.distinct).1;
      fits = (remove-Fits p post s.areas vma_max 0 pre v.fits).0;
    },
    left-Gone (unlink p s) (pre ++ post) (λ b. false) (λ b. ground arith) (λ b. ground arith),
  )

  -- A part of the area is left.
  module _ (new : Option ℕ) (a : Area) (in_order : a.start ≤ a.stop)
      (from : (s.areas p).start ≤ a.start) (to : a.stop ≤ (s.areas p).stop) where
    abbrev cut : Vmas
    cut = record s { areas = update s.areas p a }

    cut-IsValid : IsValid cut (pre ++ p ∷ post)
    cut-IsValid =
        let (f, l, o, g) = remove-Fits p post s.areas vma_max 0 pre v.fits in
        record {
          path = v.path;
          distinct = v.distinct;
          fits =
              insert-Fits s.areas vma_max p a post 0 pre (remove-IsDistinct p post pre v.distinct).0
                f (omega (arith, l)) in_order (omega (arith, g));
        }

    cut-Freed :
        ((b : ℕ)
          → within a.start a.stop b
            ≡ (within (s.areas p).start (s.areas p).stop b && not (within start end b)))
        → Freed s (pre ++ p ∷ post) start end new (some (ok, none, cut))
    cut-Freed e = (
      ok,
      none,
      cut,
      pre ++ p ∷ post,
      refl,
      cut-IsValid,
      left-Gone cut (pre ++ p ∷ post) (within a.start a.stop)
          (λ b.
            insert-covered s.areas vma_max p a post pre b
              (remove-IsDistinct p post pre v.distinct).0)
          e,
    )

  abbrev upper : Area
  upper = record { start = end; stop = (s.areas p).stop; flags = (s.areas p).flags }

  abbrev lower : Area
  lower = record (s.areas p) { stop = start }

  -- Something is left on both sides.
  module _ (n : ℕ) (m : mem n (pre ++ p ∷ post) ≡ false) where
    not_new : mem n (pre ++ post) ≡ false
    not_new = ground (arith, m, mem-append n pre (p ∷ post), mem-append n pre post)

    not_twice : mem p (pre ++ n ∷ post) ≡ false
    not_twice = ground (
      arith,
      m,
      (remove-IsDistinct p post pre v.distinct).0,
      mem-append n pre (p ∷ post),
      mem-append p pre post,
      mem-append p pre (n ∷ post),
    )

    pub split-IsValid : IsValid (split start end p n s) (pre ++ p ∷ n ∷ post)
    split-IsValid =
        let (f, l, o, g) = remove-Fits p post s.areas vma_max 0 pre v.fits in
        let f1 =
          insert-Fits s.areas vma_max n upper post 0 pre not_new f (omega (arith, l)) (omega arith)
            (omega (arith, g)) in
        record {
          path = split-Leads s.links.next p post n s.list pre m v.distinct v.path;
          distinct = split-IsDistinct s.links.next p post n pre m v.distinct;
          fits =
              insert-Fits (update s.areas n upper) vma_max p lower (n ∷ post) 0 pre not_twice f1
                (omega (
                  arith,
                  l,
                  last_stop-frame s.areas n upper 0 pre
                      (ground (arith, m, mem-append n pre (p ∷ post))),
                ))
                low (rw (first_start, ==-refl n) (omega arith));
        }

    split-Freed :
        Freed s (pre ++ p ∷ post) start end (some n) (some (ok, none, split start end p n s))
    split-Freed = (
      ok,
      none,
      split start end p n s,
      pre ++ p ∷ n ∷ post,
      refl,
      split-IsValid,
      left-Gone (split start end p n s) (pre ++ p ∷ n ∷ post)
          (λ b. within end (s.areas p).stop b || within (s.areas p).start start b)
          (λ b. ground (
            arith,
            insert-covered (update s.areas n upper) vma_max p lower (n ∷ post) pre b not_twice,
            insert-covered s.areas vma_max n upper post pre b not_new,
          ))
          (λ b. ground arith),
    )

  free_in-Freed :
      (new : Option ℕ)
      → IsNew new (pre ++ p ∷ post)
      → Backs s.links.prev none (pre ++ p ∷ post)
      → Freed s (pre ++ p ∷ post) start end new (some (free_in start end p new s))
  free_in-Freed new w back =
      if-elim (λ r. Freed s (pre ++ p ∷ post) start end new (some r))
        (start == (s.areas p).start && end == (s.areas p).stop) _ _
        (λ e. unlink-Freed new back (ground arith) (ground arith))
        (λ e.
          if-elim (λ r. Freed s (pre ++ p ∷ post) start end new (some r))
            (start == (s.areas p).start) _ _
            (λ e'.
              cut-Freed new (record (s.areas p) { start = end }) high (omega arith) (omega arith)
                (λ b. ground arith))
            (λ e'.
              if-elim (λ r. Freed s (pre ++ p ∷ post) start end new (some r))
                (end == (s.areas p).stop) _ _
                (λ f. cut-Freed new lower low (omega arith) (omega arith) (λ b. ground arith))
                (λ f. inner new w)))
    where
      inner :
          (new : Option ℕ)
          → IsNew new (pre ++ p ∷ post)
          → Freed s (pre ++ p ∷ post) start end new (
              some (elim new [
                | none ↦ (enomem, none, s)
                | some n ↦ (ok, none, split start end p n s)
              ]))
      inner none w = (enomem, none, s, pre ++ p ∷ post, refl, v, (refl, refl, refl))
      inner (some n) w = split-Freed n w

module _ {s : Vmas} {ids : List ℕ} (v : IsValid s ids) (back : Backs s.links.prev none ids) where
  -- For a valid list whose `prev` links are right, and fuel above the number of nodes, `vma_free`
  -- returns a valid list. It fails with -EINVAL only if the range is empty or no area contains it,
  -- and with -ENOMEM only if `kmalloc` gives NULL; then nothing changes. Otherwise the whole range
  -- was used, and exactly its addresses become free, whether the range is the area, its start, its
  -- end or its middle.
  pub vma_free-Freed :
      (fuel start end : ℕ) (new : Option ℕ)
      → IsNew new ids
      → length ids < fuel
      → Freed s ids start end new (vma_free fuel start end new s)
  unfolding vma_free
  vma_free-Freed fuel start end new w enough =
      if-elim (Freed s ids start end new) (leb end start) _ _
        (λ e. (einval, none, s, ids, refl, v, (refl, refl, inl (ground arith))))
        (λ e. searched (ground arith))
    where
      answer : Option (Option ℕ) → Option (Code × Option ℕ × Vmas)
      answer r = elim r [
        | none ↦ none
        | some none ↦ some (einval, none, s)
        | some (some p) ↦ some (free_in start end p new s)
      ]

      held :
          (p : ℕ) (pre post : List ℕ)
          → start < end
          → ids ≡ pre ++ p ∷ post
          → holds s start end p ≡ true
          → Freed s ids start end new (some (free_in start end p new s))
      held p pre post o e c =
          subst (λ l. Freed s l start end new (some (free_in start end p new s))) (sym e)
            (free_in-Freed p pre post (subst (IsValid s) e v) start end o (ground arith)
              (ground arith) new (subst (IsNew new) e w) (subst (Backs s.links.prev none) e back))

      searched : start < end → Freed s ids start end new (answer (find_vma fuel start end s s.list))
      searched o = elim (find_vma-Found s start end fuel s.list ids v.path enough) [
        | inl (e, g) ↦
            subst (Freed s ids start end new) (sym (ap answer e))
              (einval, none, s, ids, refl, v, (refl, refl, inr g))
        | inr (p, pre, post, e, q, c) ↦
            subst (Freed s ids start end new) (sym (ap answer e)) (held p pre post o q c)
      ]
