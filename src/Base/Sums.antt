-- ===== src/Base/Sums.antt =====
-- Sums over the indices below a bound.
use Prim.Native.Nat.{ℕ, zero, suc, ◌+◌, ◌≤◌, ◌<◌}
use mathlib.Core.Path.{◌≡◌, refl, ap, subst}
use mathlib.Core.Bool.{false}
use mathlib.Core.Logic.{inl, inr}
use native.Mathlib.Omega.{arith}
use libhermit.Base.Tests.{◌==◌, ==-refl, Bool-cases}
use libhermit.Base.Maps.{update}

module _ {ℓ} {A : Type ℓ} (w : A → ℕ) where
  -- The weights of the elements of a family.
  abbrev pub sum : (ℕ → A) → ℕ → ℕ
  sum f zero = 0
  sum f (suc n) = w (f n) + sum f n

  sum-above : (f : ℕ → A) (n i : ℕ) (x : A) → n ≤ i → sum (update f i x) n ≡ sum f n
  sum-above f zero i x l = refl
  sum-above f (suc n) i x l =
      let other : (i == n) ≡ false = ground arith in
      rw other (ap (λ c. w (f n) + c) (sum-above f n i x (omega arith)))

  pub sum-update :
      (f : ℕ → A) (n i : ℕ) (x : A) → i < n → sum (update f i x) n + w (f i) ≡ sum f n + w x
  sum-update f zero i x l = absurd (omega arith)
  sum-update f (suc n) i x l = elim (Bool-cases (i == n)) [
    | inl c ↦
        let same : n ≡ i = ground arith in
        subst (λ i. sum (update f i x) (suc n) + w (f i) ≡ sum f (suc n) + w x) same
          (rw (==-refl n) (omega (arith, sum-above f n n x (omega arith))))
    | inr c ↦ rw c (omega (arith, sum-update f n i x (ground arith)))
  ]

  pub sum-ge : (f : ℕ → A) (n i : ℕ) → i < n → w (f i) ≤ sum f n
  sum-ge f zero i l = absurd (omega arith)
  sum-ge f (suc n) i l = elim (Bool-cases (i == n)) [
    | inl c ↦
        let same : n ≡ i = ground arith in subst (λ i. w (f i) ≤ sum f (suc n)) same (omega arith)
    | inr c ↦ omega (arith, sum-ge f n i (ground arith))
  ]
