-- ===== src/Vma/Add.antt =====
-- `vma_add` puts a range of addresses into the list.
use libhermit.Base.{
  ℕ, suc, ◌≤◌, ◌<◌, ◌≡◌, refl, Bool, true, false, Option, none, some, List, [], ◌∷◌, ◌++◌, arith,
  ap, ◌∙◌, sym, subst, leb, ◌==◌, ◌&&◌, ◌||◌, not, if◌then◌else◌, length, is_some, inl, inr, ◌⊎◌,
  if-elim,
}
use libhermit.Vma.Defs.{Area, Vmas, resize, vma_max, gap_start}
use libhermit.Vma.Update.{
  Code, ok, einval, enomem, ends_by, starts_from, find_room, add_new, put_area, vma_add,
}
use libhermit.Vma.Areas.{
  Backs, Leads, covered, within, IsValid, last_of, first_of, last_stop, first_start, insert-Fits,
  insert-covered, gap-covered,
}
use libhermit.Vma.Gap.{
  resize-Fits, resize-covered, insert-Leads_gap, insert-IsDistinct, last_of-some,
}
use libhermit.Vma.Back.{insert-Backs}
use libhermit.Vma.Alloc.{IsNew, last_stop-gap_start}
use libhermit.Vma.Room.{roomy, find_room-Found, ends_by-last_stop, starts_from-first_start}

-- The range was free, and its addresses are the only ones that are used and were not.
pub record Taken (s s' : Vmas) (ids ids' : List ℕ) (start end : ℕ) : Type 0 where
  pub were_free : (b : ℕ) → (within start end b && covered s.areas ids b) ≡ false
  pub are_used : (b : ℕ) → covered s'.areas ids' b ≡ (covered s.areas ids b || within start end b)

-- What the call has come to.
abbrev pub Outcome : Vmas → List ℕ → ℕ → ℕ → Option ℕ → Code → Vmas → List ℕ → Type 0
Outcome s ids start end new einval s' ids' =
    (s' ≡ s)
    × (ids' ≡ ids)
    × ((end ≤ start)
        ⊎ ((pre post : List ℕ) → ids ≡ pre ++ post → roomy s start end none pre post ≡ false))
Outcome s ids start end new enomem s' ids' = (s' ≡ s) × (ids' ≡ ids) × (new ≡ none)
Outcome s ids start end new ok s' ids' = Taken s s' ids ids' start end

abbrev pub Added : Vmas → List ℕ → ℕ → ℕ → Option ℕ → Option (Code × Vmas) → Type 0
Added s ids start end new r =
    (code : Code) × (s' : Vmas) × (ids' : List ℕ) × (r ≡ some (code, s'))
    × IsValid s' ids'
    × (Backs s.links.prev none ids → Backs s'.links.prev none ids')
    × Outcome s ids start end new code s' ids'

module _ {s : Vmas} (pre post : List ℕ) (v : IsValid s (pre ++ post)) (start end flags : ℕ)
    (order : start < end) (behind : last_stop s.areas 0 pre ≤ start)
    (before : end ≤ first_start s.areas vma_max post) where
  free : (b : ℕ) → (within start end b && covered s.areas (pre ++ post) b) ≡ false
  free b = ground (arith, gap-covered s.areas vma_max post 0 b pre v.fits)

  abbrev area : Area
  area = record { start = start; stop = end; flags = flags }

  add_new-Added :
      (new : Option ℕ)
      → IsNew new (pre ++ post)
      → Added s
          (pre ++ post)
          start
          end
          new
          (some (add_new new area (last_of none pre) (first_of post) s))
  add_new-Added none w = (enomem, s, pre ++ post, refl, v, λ k. k, (refl, refl, refl))
  add_new-Added (some n) w = (
    ok,
    _,
    pre ++ n ∷ post,
    refl,
    record {
      path = insert-Leads_gap s.links.next n post s.list pre w v.distinct v.path;
      distinct = insert-IsDistinct s.links.next n post pre w v.distinct;
      fits = insert-Fits s.areas vma_max n area post 0 pre w v.fits behind (omega arith) before;
    },
    λ k. insert-Backs n post s.links.prev none pre w v.distinct k,
    record { were_free = free; are_used = λ b. insert-covered s.areas vma_max n area post pre b w },
  )

module _ {s : Vmas} (post : List ℕ) (start end flags : ℕ) (order : start < end) where
  -- The area in front of the gap grows.
  resize-Added :
      (x p : ℕ) (xs : List ℕ) (new : Option ℕ) (v : IsValid s (x ∷ xs ++ post))
      → last_of (some x) xs ≡ some p
      → end ≤ first_start s.areas vma_max post
      → (s.areas p).stop ≡ start
      → Added s (x ∷ xs ++ post) start end new (some (ok, resize p end s))
  resize-Added x p xs new v last before e =
      let stop-eq : last_stop s.areas 0 (x ∷ xs) ≡ start =
        last_stop-gap_start s.areas x 0 0 xs ∙ ap (λ o. gap_start s.areas o 0) last ∙ e in
      (
        ok,
        resize p end s,
        x ∷ xs ++ post,
        refl,
        record {
          path = v.path;
          distinct = v.distinct;
          fits =
              resize-Fits s.areas vma_max p end post 0 x xs last v.distinct v.fits
                (omega (arith, stop-eq)) before;
        },
        λ k. k,
        record {
          were_free = free (x ∷ xs) post v start end flags order (omega (arith, stop-eq)) before;
          are_used = λ b.
              resize-covered s.areas vma_max p end post 0 x xs b last v.distinct v.fits
                (omega (arith, stop-eq))
              ∙ ap (λ m. covered s.areas (x ∷ xs ++ post) b || within m end b) stop-eq;
        },
      )

  put_area-Added :
      (new : Option ℕ) (pre : List ℕ) (v : IsValid s (pre ++ post))
      → IsNew new (pre ++ post)
      → end ≤ vma_max
      → ends_by s.areas (last_of none pre) start ≡ true
      → starts_from s.areas (first_of post) end ≡ true
      → Added s
          (pre ++ post)
          start
          end
          new
          (some (put_area start end flags new (last_of none pre) (first_of post) s))
  put_area-Added new [] v w l e f =
      add_new-Added [] post v start end flags order (omega arith)
        (starts_from-first_start s.areas end vma_max post l f) new w
  put_area-Added new (x ∷ xs) v w l e f =
      let (p, last, m) = last_of-some x xs in
      let before = starts_from-first_start s.areas end vma_max post l f in
      subst
        (λ o.
          Added s (x ∷ xs ++ post) start end new
            (some (put_area start end flags new o (first_of post) s)))
        (sym last)
        (if-elim (λ r. Added s (x ∷ xs ++ post) start end new (some r))
          ((s.areas p).stop == start && (s.areas p).flags == flags) _ _
          (λ c. resize-Added x p xs new v last before (ground arith))
          (λ c.
            subst
              (λ o. Added s (x ∷ xs ++ post) start end new (
                some (
                  add_new new (record { start = start; stop = end; flags = flags }) o
                    (first_of post) s)))
              last
              (add_new-Added (x ∷ xs) post v start end flags order
                (ends_by-last_stop s.areas start 0 (x ∷ xs) (omega arith) e) before new w)))

-- In an empty list, the search finds room.
refused :
    (s : Vmas) (start end : ℕ) (ids : List ℕ)
    → Leads s.links.next s.list ids
    → ((pre post : List ℕ) → ids ≡ pre ++ post → roomy s start end none pre post ≡ false)
    → is_some s.list ≡ true
refused s start end [] h g = absurd (ground (arith, g [] [] refl))
refused s start end (x ∷ xs) h g = ap is_some h.0

-- Both pointers are NULL only in an empty list.
vacant :
    (s : Vmas) (pre post : List ℕ)
    → Leads s.links.next s.list (pre ++ post)
    → (is_some s.list && not (is_some (last_of none pre)) && not (is_some (first_of post))) ≡ false
vacant s [] [] h = ap (λ l. is_some l && true && true) h
vacant s [] (y ∷ ys) h = ground arith
vacant s (x ∷ xs) post h =
    let (p, last, m) = last_of-some x xs in
    ap (λ o. is_some s.list && not (is_some o) && not (is_some (first_of post))) last ∙ ground arith

module _ {s : Vmas} {ids : List ℕ} (v : IsValid s ids) where
  -- For a valid list, a range that ends below VMA_MAX, and fuel for two steps more than there are
  -- nodes, `vma_add` returns a valid list, whose `prev` links are right if they were. It fails with
  -- -EINVAL only if the range is empty or lies in no gap of the list, and with -ENOMEM only if
  -- `kmalloc` gives NULL; then nothing changes. Otherwise the whole range was free, and exactly its
  -- addresses become used.
  pub vma_add-Added :
      (fuel start end flags : ℕ) (new : Option ℕ)
      → IsNew new ids
      → suc (length ids) < fuel
      → end ≤ vma_max
      → Added s ids start end new (vma_add fuel start end flags new s)
  unfolding vma_add
  vma_add-Added fuel start end flags new w enough l =
      if-elim (Added s ids start end new) (leb end start) _ _
        (λ e. (einval, s, ids, refl, v, λ k. k, (refl, refl, inl (ground arith))))
        (λ e. searched (ground arith))
    where
      answer : Option (Option ℕ × Option ℕ) → Option (Code × Vmas)
      answer r = elim r [
        | none ↦ none
        | some (pred, succ) ↦
            if is_some s.list && not (is_some pred) && not (is_some succ)
            then some (einval, s)
            else some (put_area start end flags new pred succ s)
      ]

      verdict : Bool → Option (Code × Vmas)
      verdict b =
          if b && true && true
          then some (einval, s)
          else some (put_area start end flags new none none s)

      chosen : (pre post : List ℕ) → Bool → Option (Code × Vmas)
      chosen pre post b =
          if b
          then some (einval, s)
          else some (put_area start end flags new (last_of none pre) (first_of post) s)

      placed :
          (pre post : List ℕ)
          → start < end
          → ids ≡ pre ++ post
          → roomy s start end none pre post ≡ true
          → Added s ids start end new
              (some (put_area start end flags new (last_of none pre) (first_of post) s))
      placed pre post o q c =
          subst
            (λ k.
              Added s k start end new
                (some (put_area start end flags new (last_of none pre) (first_of post) s)))
            (sym q)
            (put_area-Added post start end flags o new pre (subst (IsValid s) q v)
              (subst (IsNew new) q w) l (ground arith) (ground arith))

      searched :
          start < end → Added s ids start end new (answer (find_room fuel start end s none s.list))
      searched o = elim (find_room-Found s start end fuel none s.list ids v.path enough) [
        | inl (e, g) ↦
            subst (Added s ids start end new)
              (sym (ap answer e ∙ ap verdict (refused s start end ids v.path g)))
              (einval, s, ids, refl, v, λ k. k, (refl, refl, inr g))
        | inr (pre, post, e, q, c) ↦
            subst (Added s ids start end new)
              (sym (
                ap answer e
                ∙ ap (chosen pre post)
                    (vacant s pre post (subst (Leads s.links.next s.list) q v.path))))
              (placed pre post o q c)
      ]
