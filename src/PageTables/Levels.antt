-- ===== src/PageTables/Levels.antt =====
-- What the loops of `__page_map` on the levels 3 to 1 have come to.
use libhermit.Base.{
  ℕ, zero, suc, ◌+◌, ◌-◌, ◌*◌, ◌/◌, ◌^◌, ◌≤◌, ◌<◌, ◌≡◌, refl, sym, ap, ◌∙◌, subst, Bool, true,
  false, List, arith, ◌==◌, length, Bool-cases, inl, inr,
}
use libhermit.PageTables.Defs.{
  Tables, present, fill_level, first_at, count_at, fill_levels, check_levels,
}
use libhermit.PageTables.Fill.{Same, Same-check, Filled, Usable, Looped, fill_level-Looped}

-- The loop on the level `l` visits the entry of every page.
visited :
    (vpn npages k l : ℕ)
    → l < 4
    → k < npages
    → vpn + npages ≤ 2 ^ 36
    → (j : ℕ) × (j < count_at vpn npages l) × (first_at vpn l + j ≡ (vpn + k) / 2 ^ (l * 9))
visited vpn npages k zero b c d = ((vpn + k) / 2 ^ 0 - first_at vpn 0, ground arith, omega arith)
visited vpn npages k (suc zero) b c d =
    ((vpn + k) / 2 ^ 9 - first_at vpn 1, ground arith, omega arith)
visited vpn npages k (suc (suc zero)) b c d =
    ((vpn + k) / 2 ^ 18 - first_at vpn 2, ground arith, omega arith)
visited vpn npages k (suc (suc (suc zero))) b c d =
    ((vpn + k) / 2 ^ 27 - first_at vpn 3, ground arith, omega arith)
visited vpn npages k (suc (suc (suc (suc l)))) b c d = absurd (omega arith)

-- How many entries the loops on these levels visit, each of which may need a new table.
abbrev pub entries : ℕ → ℕ → ℕ → ℕ
entries vpn npages zero = 0
entries vpn npages (suc lvl) = count_at vpn npages (suc lvl) + entries vpn npages lvl

-- What the loops on the levels from `lvl` down to 1 have come to.
abbrev pub Ready : ℕ → ℕ → ℕ → List ℕ → Tables → Bool × Tables → Type 0
Ready lvl vpn npages frames t r =
    ((l j : ℕ) → lvl < l → r.1 l j ≡ t l j)
    × ((w : ℕ) → check_levels 4 w t ≡ true → Same w t r.1)
    × (r.0 ≡ true
        → (l k : ℕ) → 0 < l
        → l ≤ lvl
        → k < npages
        → present (r.1 l ((vpn + k) / 2 ^ (l * 9))) ≡ true)
    × (Usable frames → entries vpn npages lvl ≤ length frames → r.0 ≡ true)

module _ (vpn npages bits : ℕ) (bound : vpn + npages ≤ 2 ^ 36) where
  Ready-next :
      (lvl : ℕ) (frames rest : List ℕ) (t t' : Tables) (r : Bool × Tables)
      → lvl < 3
      → Filled lvl t t'
      → ((k : ℕ)
          → k < count_at vpn npages (suc lvl)
          → present (t' (suc lvl) (first_at vpn (suc lvl) + k)) ≡ true)
      → ((n : ℕ)
          → Usable frames
          → count_at vpn npages (suc lvl) + n ≤ length frames
          → Usable rest × (n ≤ length rest))
      → Ready lvl vpn npages rest t' r
      → Ready (suc lvl) vpn npages frames t r
  Ready-next lvl frames rest t t' r low f p e (hi, walks, there, enough) = (
    λ l j b. hi l j (omega arith) ∙ f.higher l j b,
    λ w c l b. walks w (Same-check w t t' (f.walks w c) ∙ c) l b ∙ f.walks w c l b,
    λ d l k b u c. elim (Bool-cases (l == suc lvl)) [
      | inl e ↦
          let (j, m, q) = visited vpn npages k (suc lvl) (omega arith) c bound in
          let same : suc lvl ≡ l = ground arith in
          subst (λ l. present (r.1 l ((vpn + k) / 2 ^ (l * 9))) ≡ true) same
            (ap present (hi (suc lvl) ((vpn + k) / 2 ^ (suc lvl * 9)) (omega arith))
              ∙ ap (λ i. present (t' (suc lvl) i)) (sym q)
              ∙ p j m)
      | inr e ↦ there d l k b (ground arith) c
    ],
    λ v l. let (a, b) = e (entries vpn npages lvl) v l in enough a b,
  )

  pub fill_levels-Ready :
      (lvl : ℕ) (frames : List ℕ) (t : Tables)
      → lvl < 4
      → Ready lvl vpn npages frames t (fill_levels lvl vpn npages bits frames t)
  unfolding fill_levels
  fill_levels-Ready zero frames t b =
      (λ l j b. refl, λ w c l b. refl, λ d l k b u c. absurd (omega arith), λ v l. refl)
  fill_levels-Ready (suc lvl) frames t b =
      stepped
        (fill_level lvl (count_at vpn npages (suc lvl)) (first_at vpn (suc lvl)) bits frames t)
        (fill_level-Looped lvl bits (omega arith) (count_at vpn npages (suc lvl))
          (first_at vpn (suc lvl)) frames t)
        (λ fs u. fill_levels-Ready lvl fs u (omega arith))
    where
      stepped :
          (r : Bool × List ℕ × Tables)
          → Looped lvl (count_at vpn npages (suc lvl)) (first_at vpn (suc lvl)) frames t r
          → ((fs : List ℕ) (u : Tables)
              → Ready lvl vpn npages fs u (fill_levels lvl vpn npages bits fs u))
          → Ready
              (suc lvl)
              vpn
              npages
              frames
              t
              (elim r.0 [ true ↦ fill_levels lvl vpn npages bits r.1 r.2 | false ↦ (false, r.2) ])
      stepped (true, rest, t') (f, h, e) next =
          Ready-next lvl frames rest t t' (fill_levels lvl vpn npages bits rest t') (omega arith) f
            (h refl) (λ n v l. let (d, u, k) = e n v l in (u, k)) (next rest t')
      stepped (false, rest, t') (f, h, e) next = (
        λ l j c. f.higher l j c,
        f.walks,
        λ d. absurd (ground arith),
        λ v l. (e (entries vpn npages lvl) v l).0,
      )
