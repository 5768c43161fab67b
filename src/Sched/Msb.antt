-- ===== src/Sched/Msb.antt =====
-- `msb` finds the highest ready queue that holds a task.
use libhermit.Base.{ℕ, zero, suc, ◌<◌, ◌≡◌, refl, true, false, ◌⊎◌, inl, inr, arith, Bool-cases}
use libhermit.Sched.Defs.{Bitmap, msb_below, msb}

-- `p` is the highest bit set among the first `n`.
pub record IsHighest (b : Bitmap) (n p : ℕ) : Type 0 where
  pub below : p < n
  pub here : b p ≡ true
  pub above : (q : ℕ) → p < q → q < n → b q ≡ false

msb_below-IsHighest : (n : ℕ) (b : Bitmap) (p : ℕ) → IsHighest b n p → msb_below n b ≡ p
msb_below-IsHighest zero b p h = absurd (omega arith)
msb_below-IsHighest (suc n) b p h = ground (
  arith,
  h.above n,
  λ (l : p < n).
      msb_below-IsHighest n b p
        (record { below = l; here = h.here; above = λ q g e. h.above q g (omega arith) }),
)

-- No bit is set, or one is the highest.
msb_below_cases :
    (n : ℕ) (b : Bitmap)
    → (((q : ℕ) → q < n → b q ≡ false) × (msb_below n b ≡ 64)) ⊎ ((p : ℕ) × IsHighest b n p)
msb_below_cases zero b = inl (λ q l. absurd (omega arith), refl)
msb_below_cases (suc n) b = elim (Bool-cases (b n)) [
  | inl set ↦
      inr (n, record { below = omega arith; here = set; above = λ q g l. absurd (omega arith) })
  | inr clear ↦ elim (msb_below_cases n b) [
    | inl (all, e) ↦ inl (λ q l. ground (arith, all q, clear), rw clear e)
    | inr (p, h) ↦ inr (
      p,
      record {
        below = ground (arith, h.below);
        here = h.here;
        above = λ q g l. ground (arith, h.above q g, clear);
      },
    )
  ]
]

pub msb-IsHighest : (b : Bitmap) (p : ℕ) → IsHighest b 32 p → msb b ≡ p
unfolding msb
msb-IsHighest b p h = msb_below-IsHighest 32 b p h

pub msb_cases : (b : Bitmap) → (msb b ≡ 64) ⊎ ((p : ℕ) × IsHighest b 32 p)
unfolding msb
msb_cases b = elim (msb_below_cases 32 b) [ inl (all, e) ↦ inl e | inr h ↦ inr h ]
