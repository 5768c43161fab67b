-- ===== src/PageTables/Bits.antt =====
-- The bitwise or of numbers in binary.
use Prim.Native.Nat.{max, bit_or, digits, bit_or-bitwise}
use native.Mathlib.Nat.{two-pow-succ, mul-add}
use libhermit.Base.{
  ℕ, zero, suc, ◌+◌, ◌*◌, ◌/◌, ◌%◌, ◌^◌, ◌≤◌, ◌<◌, ◌≡◌, refl, sym, ap, ap₂, ◌∙◌, arith,
}

-- The law for the lowest digit, from the definition of the operation.
abbrev or_digits : ℕ → ℕ → ℕ → ℕ
or_digits n a b = digits (λ b. b) max n a b

or_digits_fuel : (n m a b : ℕ) → a ≤ n → a ≤ m → or_digits n a b ≡ or_digits m a b
or_digits_fuel zero zero a b p q = refl
or_digits_fuel zero (suc m) zero b p q = refl
or_digits_fuel zero (suc m) (suc a) b p q = absurd (omega arith)
or_digits_fuel (suc n) zero zero b p q = refl
or_digits_fuel (suc n) zero (suc a) b p q = absurd (omega arith)
or_digits_fuel (suc n) (suc m) zero b p q = refl
or_digits_fuel (suc n) (suc m) (suc a) b p q =
    omega (arith, or_digits_fuel n m (suc a / 2) (b / 2) (omega arith) (omega arith))

zero-bit_or : (b : ℕ) → bit_or 0 b ≡ b
zero-bit_or b = bit_or-bitwise 0 b

pub bit_or_step : (a b : ℕ) → bit_or a b ≡ bit_or (a / 2) (b / 2) * 2 + max (a % 2) (b % 2)
bit_or_step zero b = omega (arith, zero-bit_or b, zero-bit_or (b / 2))
bit_or_step (suc a) b = omega (
  arith,
  bit_or-bitwise (suc a) b,
  bit_or-bitwise (suc a / 2) (b / 2),
  or_digits_fuel a (suc a / 2) (suc a / 2) (b / 2) (omega arith) (omega arith),
)

-- The lowest bit is set if it is set on one side.
pub bit_or-odd : (a b : ℕ) → b % 2 ≡ 1 → bit_or a b % 2 ≡ 1
bit_or-odd a b h = omega (arith, bit_or_step a b)

half : (a b : ℕ) → bit_or a b / 2 ≡ bit_or (a / 2) (b / 2)
half a b = ground (arith, bit_or_step a b)

eighth : (a b : ℕ) → bit_or a b / 8 ≡ bit_or (a / 8) (b / 8)
eighth a b =
    let one : bit_or a b / 8 ≡ bit_or a b / 2 / 2 / 2 = omega arith in
    let left : a / 2 / 2 / 2 ≡ a / 8 = omega arith in
    let right : b / 2 / 2 / 2 ≡ b / 8 = omega arith in
    one
    ∙ ap (λ n. n / 2 / 2) (half a b)
    ∙ ap (λ n. n / 2) (half (a / 2) (b / 2))
    ∙ half (a / 2 / 2) (b / 2 / 2)
    ∙ ap₂ bit_or left right

-- A page has 2 ^ 12 bytes.
pub bit_or-page : (a b : ℕ) → bit_or a b / 4096 ≡ bit_or (a / 4096) (b / 4096)
bit_or-page a b =
    let one : bit_or a b / 4096 ≡ bit_or a b / 8 / 8 / 8 / 8 = omega arith in
    let left : a / 8 / 8 / 8 / 8 ≡ a / 4096 = omega arith in
    let right : b / 8 / 8 / 8 / 8 ≡ b / 4096 = omega arith in
    one
    ∙ ap (λ n. n / 8 / 8 / 8) (eighth a b)
    ∙ ap (λ n. n / 8 / 8) (eighth (a / 8) (b / 8))
    ∙ ap (λ n. n / 8) (eighth (a / 8 / 8) (b / 8 / 8))
    ∙ eighth (a / 8 / 8 / 8) (b / 8 / 8 / 8)
    ∙ ap₂ bit_or left right

bit_or-zero_below : (n a : ℕ) → a ≤ n → bit_or a 0 ≡ a
bit_or-zero_below n zero h = zero-bit_or 0
bit_or-zero_below zero (suc a) h = absurd (omega arith)
bit_or-zero_below (suc n) (suc a) h =
    ground (arith, bit_or_step (suc a) 0, bit_or-zero_below n (suc a / 2) (omega arith))

pub bit_or-zero : (a : ℕ) → bit_or a 0 ≡ a
bit_or-zero a = bit_or-zero_below a a (omega arith)

-- A bit above all bits of the other number.
pub bit_or-high : (k u : ℕ) → u < 2 ^ k → bit_or u (2 ^ k) ≡ u + 2 ^ k
bit_or-high zero u h =
    let none : u ≡ 0 = omega arith in
    ap (λ n. bit_or n (2 ^ 0)) none ∙ zero-bit_or (2 ^ 0) ∙ ap (λ n. n + 2 ^ 0) (sym none)
bit_or-high (suc k) u h =
    let double = two-pow-succ k in
    let split : 2 ^ suc k / 2 ≡ 2 ^ k = omega (arith, double) in
    ground (
      arith,
      double,
      bit_or_step u (2 ^ suc k),
      ap (bit_or (u / 2)) split,
      bit_or-high k (u / 2) (omega (arith, double)),
    )

-- The lower bits of a multiple of a power of two.
pub bit_or-low : (k c u : ℕ) → u < 2 ^ k → bit_or (c * 2 ^ k) u ≡ c * 2 ^ k + u
bit_or-low zero c u h =
    let none : u ≡ 0 = omega arith in
    ap (bit_or (c * 2 ^ 0)) none ∙ bit_or-zero (c * 2 ^ 0) ∙ omega (arith, none)
bit_or-low (suc k) c u h =
    let double : c * 2 ^ suc k ≡ c * 2 ^ k + c * 2 ^ k =
      ap (λ n. c * n) (two-pow-succ k) ∙ mul-add c (2 ^ k) (2 ^ k) in
    let split : c * 2 ^ suc k / 2 ≡ c * 2 ^ k = omega (arith, double) in
    ground (
      arith,
      double,
      bit_or_step (c * 2 ^ suc k) u,
      ap (λ n. bit_or n (u / 2)) split,
      bit_or-low k c (u / 2) (omega (arith, two-pow-succ k)),
    )
