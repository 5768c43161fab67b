-- ===== src/Vma/Room.antt =====
-- The search of `vma_add`.
use libhermit.Base.{
  ℕ, zero, suc, ◌≤◌, ◌<◌, ◌≡◌, refl, Bool, true, false, Option, none, some, List, [], ◌∷◌, ◌++◌,
  arith, ap, ◌∙◌, sym, subst, leb, ◌&&◌, ◌||◌, length, is_some, inl, inr, ◌⊎◌, Bool-cases,
}
use libhermit.Vma.Defs.{Area, Vmas, next_of, gap_start}
use libhermit.Vma.Update.{ends_by, starts_from, find_room}
use libhermit.Vma.Areas.{Leads, last_of, first_of, last_stop, first_start}
use libhermit.Vma.Gap.{last_of-some}
use libhermit.Vma.Alloc.{last_stop-gap_start}

-- The range lies in the gap behind `pre` and in front of `post`.
abbrev pub roomy : Vmas → ℕ → ℕ → Option ℕ → List ℕ → List ℕ → Bool
roomy s start end x pre post =
    ends_by s.areas (last_of x pre) start && starts_from s.areas (first_of post) end

-- What the search has come to.
abbrev pub Found : Vmas → ℕ → ℕ → Option ℕ → List ℕ → Option (Option ℕ × Option ℕ) → Type 0
Found s start end x ids r =
    ((r ≡ some (none, none))
      × ((pre post : List ℕ) → ids ≡ pre ++ post → roomy s start end x pre post ≡ false))
    ⊎ ((pre : List ℕ) × (post : List ℕ) × (r ≡ some (last_of x pre, first_of post))
        × (ids ≡ pre ++ post)
        × (roomy s start end x pre post ≡ true))

module _ (s : Vmas) (start end : ℕ) where
  Found-cons :
      (x : Option ℕ) (y : ℕ) (ys : List ℕ) (r r' : Option (Option ℕ × Option ℕ))
      → roomy s start end x [] (y ∷ ys) ≡ false
      → r' ≡ r
      → Found s start end (some y) ys r
      → Found s start end x (y ∷ ys) r'
  Found-cons x y ys r r' f e (inl (h, g)) = inl (e ∙ h, none_fits)
    where
      none_fits : (pre post : List ℕ) → y ∷ ys ≡ pre ++ post → roomy s start end x pre post ≡ false
      none_fits [] post q = subst (λ l. roomy s start end x [] l ≡ false) q f
      none_fits (z ∷ zs) post q =
          let same : y ≡ z = cc in
          subst (λ w. roomy s start end x (w ∷ zs) post ≡ false) same (g zs post cc)
  Found-cons x y ys r r' f e (inr (pre, post, h, q, c)) =
      inr (y ∷ pre, post, e ∙ h, ap (λ l. y ∷ l) q, c)

  abbrev step : ℕ → Option ℕ → Option ℕ → Bool → Option (Option ℕ × Option ℕ)
  step fuel x p b = elim b [
    | true ↦ some (x, p)
    | false ↦ find_room fuel start end s p (next_of s.links p)
  ]

  abbrev outer : ℕ → Option ℕ → Option ℕ → Bool → Option (Option ℕ × Option ℕ)
  outer fuel x p b = elim b [
    | false ↦ some (x, p)
    | true ↦ step fuel x p (ends_by s.areas x start && starts_from s.areas p end)
  ]

  find_room-eq :
      (fuel : ℕ) (x p : Option ℕ) (b : Bool)
      → (is_some x || is_some p) ≡ true
      → (ends_by s.areas x start && starts_from s.areas p end) ≡ b
      → find_room (suc fuel) start end s x p ≡ step fuel x p b
  unfolding find_room
  find_room-eq fuel x p b o e = ap (outer fuel x p) o ∙ ap (step fuel x p) e

  -- Behind the last node.
  find_room_last :
      (fuel : ℕ) (x : Option ℕ)
      → 1 < fuel
      → Found s start end x [] (find_room fuel start end s x none)
  unfolding find_room
  find_room_last zero x l = absurd (omega arith)
  find_room_last (suc zero) x l = absurd (omega arith)
  find_room_last (suc (suc fuel)) none l = inr ([], [], refl, refl, refl)
  find_room_last (suc (suc fuel)) (some x) l =
      elim (Bool-cases (roomy s start end (some x) [] [])) [
        | inl c ↦ inr ([], [], find_room-eq (suc fuel) (some x) none true refl c, refl, c)
        | inr c ↦ inl (find_room-eq (suc fuel) (some x) none false refl c, none_fits c)
      ]
    where
      none_fits :
          roomy s start end (some x) [] [] ≡ false
          → (pre post : List ℕ) → [] ≡ pre ++ post
          → roomy s start end (some x) pre post ≡ false
      none_fits c [] [] q = c
      none_fits c [] (y ∷ ys) q = absurd (ground (arith, q))
      none_fits c (y ∷ ys) post q = absurd (ground (arith, q))

  -- The walk ends with two steps more than there are nodes.
  pub find_room-Found :
      (fuel : ℕ) (x p : Option ℕ) (ids : List ℕ)
      → Leads s.links.next p ids
      → suc (length ids) < fuel
      → Found s start end x ids (find_room fuel start end s x p)
  find_room-Found fuel x p [] h l =
      subst (λ q. Found s start end x [] (find_room fuel start end s x q)) (sym h)
        (find_room_last fuel x (omega arith))
  find_room-Found zero x p (y ∷ ys) h l = absurd (omega arith)
  find_room-Found (suc fuel) x p (y ∷ ys) h l =
      subst (λ q. Found s start end x (y ∷ ys) (find_room (suc fuel) start end s x q)) (sym h.0)
        (elim (Bool-cases (roomy s start end x [] (y ∷ ys))) [
          | inl c ↦ inr ([], y ∷ ys, find_room-eq fuel x (some y) true (ground arith) c, refl, c)
          | inr c ↦
              Found-cons x y ys (find_room fuel start end s (some y) (s.links.next y)) _ c
                (find_room-eq fuel x (some y) false (ground arith) c)
                (find_room-Found fuel (some y) (s.links.next y) ys h.1 (omega arith))
        ])

pub ends_by-last_stop :
    (areas : ℕ → Area) (start lo : ℕ) (pre : List ℕ)
    → lo ≤ start
    → ends_by areas (last_of none pre) start ≡ true
    → last_stop areas lo pre ≤ start
ends_by-last_stop areas start lo [] l e = l
ends_by-last_stop areas start lo (x ∷ xs) l e =
    let (p, last, m) = last_of-some x xs in
    omega (
      arith,
      last_stop-gap_start areas x lo 0 xs ∙ ap (λ o. gap_start areas o 0) last,
      stop_le p (subst (λ o. ends_by areas o start ≡ true) last e),
    )
  where
    stop_le : (p : ℕ) → leb (areas p).stop start ≡ true → (areas p).stop ≤ start
    stop_le p e = ground arith

pub starts_from-first_start :
    (areas : ℕ → Area) (end hi : ℕ) (post : List ℕ)
    → end ≤ hi
    → starts_from areas (first_of post) end ≡ true
    → end ≤ first_start areas hi post
starts_from-first_start areas end hi [] l e = l
starts_from-first_start areas end hi (x ∷ xs) l e = ground arith
