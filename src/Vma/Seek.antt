-- ===== src/Vma/Seek.antt =====
-- The search of `vma_free`.
use libhermit.Base.{
  ℕ, zero, suc, ◌<◌, ◌≡◌, refl, Bool, true, false, Option, none, some, List, [], ◌∷◌, ◌++◌, arith,
  ap, ◌∙◌, sym, subst, leb, ◌==◌, ==_iff, ◌&&◌, mem, length, inl, inr, ◌⊎◌, Bool-cases,
}
use libhermit.Vma.Defs.{Vmas}
use libhermit.Vma.Update.{find_vma}
use libhermit.Vma.Areas.{Leads}

-- The area of the node `x` contains the range.
abbrev pub holds : Vmas → ℕ → ℕ → ℕ → Bool
holds s start end x = leb (s.areas x).start start && leb end (s.areas x).stop

-- What the search has come to.
abbrev pub Found : Vmas → ℕ → ℕ → List ℕ → Option (Option ℕ) → Type 0
Found s start end ids r =
    ((r ≡ some none) × ((x : ℕ) → mem x ids ≡ true → holds s start end x ≡ false))
    ⊎ ((p : ℕ) × (pre : List ℕ) × (post : List ℕ) × (r ≡ some (some p))
        × (ids ≡ pre ++ p ∷ post)
        × (holds s start end p ≡ true))

module _ (s : Vmas) (start end : ℕ) where
  Found-cons :
      (x : ℕ) (ids : List ℕ) (r r' : Option (Option ℕ))
      → holds s start end x ≡ false
      → r' ≡ r
      → Found s start end ids r
      → Found s start end (x ∷ ids) r'
  Found-cons x ids r r' f e (inl (h, g)) = inl (
    e ∙ h,
    λ y m. elim (Bool-cases (y == x)) [
      | inl here ↦ subst (λ z. holds s start end z ≡ false) (sym ((==_iff y x).0 here)) f
      | inr there ↦ g y (ground arith)
    ],
  )
  Found-cons x ids r r' f e (inr (p, pre, post, h, q, c)) =
      inr (p, x ∷ pre, post, e ∙ h, ap (λ l. x ∷ l) q, c)

  abbrev step : ℕ → ℕ → Bool → Option (Option ℕ)
  step fuel p b = elim b [
    | true ↦ some (some p)
    | false ↦ find_vma fuel start end s (s.links.next p)
  ]

  pub find_vma-eq :
      (fuel p : ℕ) (b : Bool)
      → holds s start end p ≡ b
      → find_vma (suc fuel) start end s (some p) ≡ step fuel p b
  unfolding find_vma
  find_vma-eq fuel p b e = ap (step fuel p) e

  pub find_vma-Found :
      (fuel : ℕ) (p : Option ℕ) (ids : List ℕ)
      → Leads s.links.next p ids
      → length ids < fuel
      → Found s start end ids (find_vma fuel start end s p)
  unfolding find_vma
  find_vma-Found zero p ids h l = absurd (omega arith)
  find_vma-Found (suc fuel) p [] h l =
      inl (ap (find_vma (suc fuel) start end s) h, λ x m. absurd (ground arith))
  find_vma-Found (suc fuel) p (x ∷ xs) h l = elim (Bool-cases (holds s start end x)) [
    | inl c ↦
        inr
          (x, [], xs, ap (find_vma (suc fuel) start end s) h.0 ∙ find_vma-eq fuel x true c, refl, c)
    | inr c ↦
        Found-cons x xs (find_vma fuel start end s (s.links.next x)) _ c
          (ap (find_vma (suc fuel) start end s) h.0 ∙ find_vma-eq fuel x false c)
          (find_vma-Found fuel (s.links.next x) xs h.1 (omega arith))
  ]
