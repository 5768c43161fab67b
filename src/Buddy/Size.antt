-- ===== src/Buddy/Size.antt =====
-- The exponent that `buddy_exp` finds, and the prefix of a block.
use libhermit.Base.{
  ℕ, zero, suc, ◌+◌, ◌-◌, ◌^◌, ◌≤◌, ◌<◌, ◌≡◌, refl, ap, ◌∙◌, sym, subst, Bool, true, false, Option,
  none, some, arith, ltb, inl, inr, ◌⊎◌, Bool-cases,
}
use native.Mathlib.Nat.{two-pow-succ, pow-le-pow_right}
use libhermit.Buddy.Defs.{
  one_shl, exp_loop, clamp_exp, buddy_exp, exponent_of, magic_of, set_exponent, set_magic,
  buddy_magic,
}

pub pow-pos : (e : ℕ) → 0 < 2 ^ e
pow-pos zero = omega arith
pow-pos (suc e) = omega (arith, two-pow-succ e, pow-pos e)

pub pow-double : (e : ℕ) → 2 ^ (e + 1) ≡ 2 ^ e + 2 ^ e
pow-double e = let next : e + 1 ≡ suc e = omega arith in ap (λ n. 2 ^ n) next ∙ two-pow-succ e

pub one_shl-small : (e : ℕ) → e < 31 → one_shl e ≡ 2 ^ e
unfolding one_shl
one_shl-small e l = ground arith

module _ (fuel sz exp : ℕ) where
  abbrev exp_step : Bool → Option ℕ
  exp_step b = elim b [ true ↦ exp_loop fuel sz (exp + 1) | false ↦ some exp ]

  exp_loop-eq : (b : Bool) → ltb (one_shl exp) sz ≡ b → exp_loop (suc fuel) sz exp ≡ exp_step b
  unfolding exp_loop
  exp_loop-eq b e = ap exp_step e

-- What the loop finds from `exp` on: the first exponent whose power is large enough.
abbrev Least : ℕ → ℕ → Option ℕ → Type 0
Least sz exp r =
    (k : ℕ) × (r ≡ some k)
    × (k ≤ 30)
    × (sz ≤ 2 ^ k)
    × ((k ≡ exp) ⊎ ((exp < k) × (2 ^ (k - 1) < sz)))

exp_loop-Least :
    (fuel sz exp : ℕ)
    → sz ≤ 2 ^ 30
    → exp ≤ 30
    → 30 < exp + fuel
    → Least sz exp (exp_loop fuel sz exp)
exp_loop-Least zero sz exp b l f = absurd (omega arith)
exp_loop-Least (suc fuel) sz exp b l f = elim (Bool-cases (ltb (one_shl exp) sz)) [
  | inl c ↦
      let less : 2 ^ exp < sz = ground (arith, one_shl-small exp) in
      let more : exp < 30 = below_30 exp less in
      subst (Least sz exp) (sym (exp_loop-eq fuel sz exp true c))
        (next less (exp_loop-Least fuel sz (exp + 1) b (omega arith) (omega arith)))
  | inr c ↦
      let enough : sz ≤ 2 ^ exp = ground (arith, one_shl-small exp) in
      (exp, exp_loop-eq fuel sz exp false c, l, enough, inl refl)
]
  where
    below_30 : (e : ℕ) → 2 ^ e < sz → e < 30
    below_30 e less = elim (Bool-cases (ltb e 30)) [
      | inl c ↦ ground arith
      | inr c ↦
          absurd
            (omega (arith, pow-le-pow_right {n = 2} (omega arith) {i = 30} {j = e} (ground arith)))
    ]

    next : {r : Option ℕ} → 2 ^ exp < sz → Least sz (exp + 1) r → Least sz exp r
    next less (k, e, l, g, inl h) =
        let same : exp ≡ k - 1 = omega arith in
        (k, e, l, g, inr (omega arith, subst (λ i. 2 ^ i < sz) same less))
    next less (k, e, l, g, inr h) = (k, e, l, g, inr (omega arith, h.1))

-- For 0 < sz ≤ 2 ^ 30 bytes and fuel for 31 passes, `buddy_exp` returns an exponent from 6 to 30
-- whose power of two is large enough for `sz`, and the one below it is not, unless it is below 2 ^
-- 6.
pub buddy_exp-bounds :
    (fuel sz : ℕ)
    → 0 < sz
    → sz ≤ 2 ^ 30
    → 30 < fuel
    → (e : ℕ) × (buddy_exp fuel sz ≡ some e)
      × (6 ≤ e)
      × (e ≤ 30)
      × (sz ≤ 2 ^ e)
      × ((6 < e) → 2 ^ (e - 1) < sz)
unfolding buddy_exp
buddy_exp-bounds fuel sz p b f =
    let (k, e, l, g, h) = exp_loop-Least fuel sz 0 b (omega arith) (omega arith) in
    elim (Bool-cases (ltb k 6)) [
      | inl c ↦ (
        6,
        ap clamped e ∙ ground arith,
        omega arith,
        omega arith,
        omega (arith, pow-le-pow_right {n = 2} (omega arith) {i = k} {j = 6} (ground arith)),
        λ i. absurd (omega arith),
      )
      | inr c ↦ (k, ap clamped e ∙ ground arith, ground arith, l, g, λ i. ground arith)
    ]
  where
    clamped : Option ℕ → Option ℕ
    clamped o = elim o [ none ↦ none | some exp ↦ some (clamp_exp exp) ]

-- The prefix that `kmalloc` writes.
pub prefix_lem :
    (e word : ℕ)
    → e < 2 ^ 8
    → (exponent_of (set_exponent e (set_magic buddy_magic word)) ≡ e)
      × (magic_of (set_exponent e (set_magic buddy_magic word)) ≡ buddy_magic)
prefix_lem e word l = (omega arith, omega arith)
