-- ===== src/PageTables/Fill.antt =====
-- The tables that `__page_map` creates leave what is mapped.
use Prim.Native.Nat.{bit_or}
use libhermit.Base.{
  ℕ, zero, suc, ◌+◌, ◌-◌, ◌*◌, ◌/◌, ◌%◌, ◌^◌, ◌≤◌, ◌<◌, ◌≡◌, refl, sym, ap, ap₂, ◌∙◌, subst, Bool,
  true, false, List, [], ◌∷◌, arith, ltb, leb, ◌==◌, ==-refl, ◌&&◌, if◌then◌else◌, length,
  Bool-cases, inl, inr,
}
use libhermit.PageTables.Bits.{bit_or-odd}
use libhermit.PageTables.Defs.{
  Tables, present, table_bits, without_xd, new_table, fill_level, check_levels,
}

-- The entries on the way to a page are the same.
abbrev pub Same : ℕ → Tables → Tables → Type 0
Same vpn t t' = (l : ℕ) → l < 4 → t' l (vpn / 2 ^ (l * 9)) ≡ t l (vpn / 2 ^ (l * 9))

pub Same-check :
    (vpn : ℕ) (t t' : Tables) → Same vpn t t' → check_levels 4 vpn t' ≡ check_levels 4 vpn t
Same-check vpn t t' h =
    ap₂ (λ a b. present a && b) (h 3 (omega arith))
      (ap₂ (λ a b. present a && b) (h 2 (omega arith))
        (ap₂ (λ a b. present a && b) (h 1 (omega arith))
          (ap (λ a. present a && true) (h 0 (omega arith)))))

pub check-present :
    (vpn : ℕ) (t : Tables)
    → check_levels 4 vpn t ≡ true
    → (l : ℕ) → l < 4
    → present (t l (vpn / 2 ^ (l * 9))) ≡ true
check-present vpn t c zero b = ground arith
check-present vpn t c (suc zero) b = ground arith
check-present vpn t c (suc (suc zero)) b = ground arith
check-present vpn t c (suc (suc (suc zero))) b = ground arith
check-present vpn t c (suc (suc (suc (suc l)))) b = absurd (omega arith)

-- The parent of the entry of a page.
parent_lem : (vpn l : ℕ) → l < 3 → vpn / 2 ^ (l * 9) / 512 ≡ vpn / 2 ^ (suc l * 9)
parent_lem vpn zero b = omega arith
parent_lem vpn (suc zero) b = omega arith
parent_lem vpn (suc (suc zero)) b = omega arith
parent_lem vpn (suc (suc (suc l))) b = absurd (omega arith)

-- What the loop on the level `lvl + 1` leaves.
pub record Filled (lvl : ℕ) (t t' : Tables) : Type 0 where
  pub higher : (l j : ℕ) → suc lvl < l → t' l j ≡ t l j
  pub kept : (j : ℕ) → present (t (suc lvl) j) ≡ true → t' (suc lvl) j ≡ t (suc lvl) j
  pub walks : (vpn : ℕ) → check_levels 4 vpn t ≡ true → Same vpn t t'

pub refl-Filled : (lvl : ℕ) (t : Tables) → Filled lvl t t
refl-Filled lvl t = record { higher = λ l j b. refl; kept = λ j h. refl; walks = λ vpn c l b. refl }

trans-Filled : (lvl : ℕ) (t u w : Tables) → Filled lvl t u → Filled lvl u w → Filled lvl t w
trans-Filled lvl t u w f g = record {
  higher = λ l j b. g.higher l j b ∙ f.higher l j b;
  kept = λ j h. g.kept j (ap present (f.kept j h) ∙ h) ∙ f.kept j h;
  walks = λ vpn c l b. g.walks vpn (Same-check vpn t u (f.walks vpn c) ∙ c) l b ∙ f.walks vpn c l b;
}

module _ (lvl index paddr bits : ℕ) (t : Tables) (low : lvl < 3)
    (missing : present (t (suc lvl) index) ≡ false) where
  abbrev created : Tables
  created = new_table lvl index paddr bits t

  abbrev entry : ℕ
  entry = without_xd (bit_or (bit_or paddr bits) table_bits)

  created-other : (l j : ℕ) → (lvl == l) ≡ false → (suc lvl == l) ≡ false → created l j ≡ t l j
  created-other l j a b = rw (a, b) refl

  created-parent : (j : ℕ) → created (suc lvl) j ≡ (if index == j then entry else t (suc lvl) j)
  created-parent j =
      let a : (lvl == suc lvl) ≡ false = ground arith in rw (a, ==-refl (suc lvl)) refl

  created-child :
      (j : ℕ)
      → created lvl j ≡ (if leb (index * 512) j && ltb j (index * 512 + 512) then 0 else t lvl j)
  created-child j = let a : (suc lvl == lvl) ≡ false = ground arith in rw (==-refl lvl, a) refl

  created-present : present (created (suc lvl) index) ≡ true
  created-present =
      let odd : entry % 2 ≡ 1 = omega (arith, bit_or-odd (bit_or paddr bits) table_bits refl) in
      ap present (created-parent index ∙ rw (==-refl index) refl) ∙ ap (λ n. n == 1) odd

  created-kept : (j : ℕ) → present (t (suc lvl) j) ≡ true → created (suc lvl) j ≡ t (suc lvl) j
  created-kept j h = elim (Bool-cases (index == j)) [
    | inl c ↦
        let same : index ≡ j = ground arith in
        absurd (ground (arith, h, subst (λ j. present (t (suc lvl) j) ≡ false) same missing))
    | inr c ↦ created-parent j ∙ ap (λ b. if b then entry else t (suc lvl) j) c
  ]

  -- The entry of a mapped page in the new table would have the missing parent.
  created-walk :
      (vpn : ℕ)
      → check_levels 4 vpn t ≡ true
      → created lvl (vpn / 2 ^ (lvl * 9)) ≡ t lvl (vpn / 2 ^ (lvl * 9))
  created-walk vpn c =
      let j = vpn / 2 ^ (lvl * 9) in
      elim (Bool-cases (leb (index * 512) j && ltb j (index * 512 + 512))) [
        | inl r ↦
            let lo : index * 512 ≤ j = ground arith in
            let hi : j < index * 512 + 512 = ground arith in
            let same : vpn / 2 ^ (suc lvl * 9) ≡ index = omega (arith, parent_lem vpn lvl low) in
            absurd (
              ground (
                arith,
                missing,
                subst (λ i. present (t (suc lvl) i) ≡ true) same
                    (check-present vpn t c (suc lvl) (omega arith)),
              ))
        | inr r ↦ created-child j ∙ ap (λ b. if b then 0 else t lvl j) r
      ]

  created-Filled : Filled lvl t created
  created-Filled = record {
    higher = λ l j b. created-other l j (ground arith) (ground arith);
    kept = created-kept;
    walks = λ vpn c l b. elim (Bool-cases (lvl == l)) [
      | inl e ↦
          let same : lvl ≡ l = ground arith in
          subst (λ l. created l (vpn / 2 ^ (l * 9)) ≡ t l (vpn / 2 ^ (l * 9))) same
            (created-walk vpn c)
      | inr e ↦ elim (Bool-cases (suc lvl == l)) [
        | inl f ↦
            let same : suc lvl ≡ l = ground arith in
            subst (λ l. created l (vpn / 2 ^ (l * 9)) ≡ t l (vpn / 2 ^ (l * 9))) same
              (created-kept (vpn / 2 ^ (suc lvl * 9))
                (check-present vpn t c (suc lvl) (omega arith)))
        | inr f ↦ created-other l (vpn / 2 ^ (l * 9)) e f
      ]
    ];
  }

-- Every call of `get_pages` succeeds.
abbrev pub Usable : List ℕ → Type 0
Usable [] = Unit
Usable (x ∷ xs) = (0 < x) × Usable xs

-- What the loop has come to. It does not fail with enough frames, and leaves the `n` ones that are
-- not needed.
abbrev pub Looped : ℕ → ℕ → ℕ → List ℕ → Tables → Bool × List ℕ × Tables → Type 0
Looped lvl count index frames t r =
    Filled lvl t r.2
    × (r.0 ≡ true → (k : ℕ) → k < count → present (r.2 (suc lvl) (index + k)) ≡ true)
    × ((n : ℕ)
        → Usable frames
        → count + n ≤ length frames
        → (r.0 ≡ true) × Usable r.1 × (n ≤ length r.1))

module _ (lvl bits : ℕ) (low : lvl < 3) where
  Looped-next :
      (count index : ℕ) (frames rest : List ℕ) (t u : Tables) (r : Bool × List ℕ × Tables)
      → Filled lvl t u
      → present (u (suc lvl) index) ≡ true
      → (Usable frames → Usable rest)
      → length frames ≤ suc (length rest)
      → Looped lvl count (index + 1) rest u r
      → Looped lvl (suc count) index frames t r
  Looped-next count index frames rest t u r f p a c (g, h, e) = (
    trans-Filled lvl t u r.2 f g,
    λ d k b. elim (Bool-cases (k == 0)) [
      | inl z ↦
          let same : index ≡ index + k = ground arith in
          subst (λ j. present (r.2 (suc lvl) j) ≡ true) same (ap present (g.kept index p) ∙ p)
      | inr z ↦
          let same : index + 1 + (k - 1) ≡ index + k = ground arith in
          subst (λ j. present (r.2 (suc lvl) j) ≡ true) same (h d (k - 1) (ground arith))
    ],
    λ n v l. e n (a v) (omega arith),
  )

  -- One pass, with the frame that `get_pages` gives.
  abbrev use_frame : ℕ → ℕ → Tables → ℕ → List ℕ → Bool → Bool × List ℕ × Tables
  use_frame count index t paddr rest b = elim b [
    | true ↦ (false, rest, t)
    | false ↦ fill_level lvl count (index + 1) bits rest (new_table lvl index paddr bits t)
  ]

  abbrev take_frame : ℕ → ℕ → Tables → List ℕ → Bool × List ℕ × Tables
  take_frame count index t [] = (false, [], t)
  take_frame count index t (paddr ∷ rest) = use_frame count index t paddr rest (paddr == 0)

  abbrev fill_step : ℕ → ℕ → List ℕ → Tables → Bool → Bool × List ℕ × Tables
  fill_step count index frames t b = elim b [
    | true ↦ fill_level lvl count (index + 1) bits frames t
    | false ↦ take_frame count index t frames
  ]

  fill_level-eq :
      (count index : ℕ) (frames : List ℕ) (t : Tables) (b : Bool)
      → present (t (suc lvl) index) ≡ b
      → fill_level lvl (suc count) index bits frames t ≡ fill_step count index frames t b
  unfolding fill_level
  fill_level-eq count index [] t b e = ap (fill_step count index [] t) e
  fill_level-eq count index (paddr ∷ rest) t b e = ap (fill_step count index (paddr ∷ rest) t) e

  take_frame-Looped :
      (count index : ℕ) (frames : List ℕ) (t : Tables)
      → present (t (suc lvl) index) ≡ false
      → ((fs : List ℕ) (u : Tables)
          → Looped lvl count (index + 1) fs u (fill_level lvl count (index + 1) bits fs u))
      → Looped lvl (suc count) index frames t (take_frame count index t frames)
  take_frame-Looped count index [] t p next =
      (refl-Filled lvl t, λ d. absurd (ground arith), λ n v l. absurd (omega arith))
  take_frame-Looped count index (paddr ∷ rest) t p next = elim (Bool-cases (paddr == 0)) [
    | inl z ↦
        subst (Looped lvl (suc count) index (paddr ∷ rest) t)
          (ap (use_frame count index t paddr rest) (sym z))
          (refl-Filled lvl t, λ d. absurd (ground arith), λ n v l. absurd (ground arith))
    | inr z ↦
        subst (Looped lvl (suc count) index (paddr ∷ rest) t)
          (ap (use_frame count index t paddr rest) (sym z))
          (Looped-next count index (paddr ∷ rest) rest t (new_table lvl index paddr bits t)
            (fill_level lvl count (index + 1) bits rest (new_table lvl index paddr bits t))
            (created-Filled lvl index paddr bits t low p)
            (created-present lvl index paddr bits t low p) (λ v. v.1) (omega arith)
            (next rest (new_table lvl index paddr bits t)))
  ]

  pub fill_level-Looped :
      (count index : ℕ) (frames : List ℕ) (t : Tables)
      → Looped lvl count index frames t (fill_level lvl count index bits frames t)
  unfolding fill_level
  fill_level-Looped zero index frames t =
      (refl-Filled lvl t, λ d k b. absurd (omega arith), λ n v l. (refl, v, omega arith))
  fill_level-Looped (suc count) index frames t = elim (Bool-cases (present (t (suc lvl) index))) [
    | inl p ↦
        subst (Looped lvl (suc count) index frames t)
          (sym (fill_level-eq count index frames t true p))
          (Looped-next count index frames frames t t
            (fill_level lvl count (index + 1) bits frames t) (refl-Filled lvl t) p (λ v. v)
            (omega arith) (fill_level-Looped count (index + 1) frames t))
    | inr p ↦
        subst (Looped lvl (suc count) index frames t)
          (sym (fill_level-eq count index frames t false p))
          (take_frame-Looped count index frames t p
            (λ fs u. fill_level-Looped count (index + 1) fs u))
  ]
