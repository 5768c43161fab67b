-- ===== src/Base/Lists.antt =====
-- Lists measured and indexed by native numbers, under the library's names.
use Prim.Native.Nat.{◌≤◌, ℕ, zero, suc, ◌+◌, ◌<◌}
use mathlib.Core.Path.{◌≡◌, refl, ap}
use mathlib.Core.Logic.{◌≢◌}
use mathlib.Core.Bool.{true, Bool, false, ◌||◌}
use mathlib.Core.List.{List, [], ◌∷◌, ◌++◌}
use mathlib.Core.Option.{Option, none, some}
use native.Mathlib.Omega.{arith}
use libhermit.Base.Tests.{◌==◌, if◌then◌else◌}

module _ {ℓ} {A : Type ℓ} where
  abbrev pub length : List A → ℕ
  length [] = 0
  length (x ∷ xs) = suc (length xs)

  abbrev pub get_elem? : List A → ℕ → Option A
  get_elem? [] i = none
  get_elem? (x ∷ xs) zero = some x
  get_elem? (x ∷ xs) (suc i) = get_elem? xs i

  abbrev pub get_or : List A → ℕ → A → A
  get_or [] i d = d
  get_or (x ∷ xs) zero d = x
  get_or (x ∷ xs) (suc i) d = get_or xs i d

  -- A write out of bounds changes nothing.
  abbrev pub set : List A → ℕ → A → List A
  set [] i v = []
  set (x ∷ xs) zero v = v ∷ xs
  set (x ∷ xs) (suc i) v = x ∷ set xs i v

  pub length-append : (xs ys : List A) → length (xs ++ ys) ≡ length xs + length ys
  length-append [] ys = omega arith
  length-append (x ∷ xs) ys = omega (arith, length-append xs ys)

  pub append_assoc : (xs ys zs : List A) → (xs ++ ys) ++ zs ≡ xs ++ (ys ++ zs)
  append_assoc [] ys zs = refl
  append_assoc (x ∷ xs) ys zs = ap (λ l. x ∷ l) (append_assoc xs ys zs)

  pub length-set : (xs : List A) (i : ℕ) (v : A) → length (set xs i v) ≡ length xs
  length-set [] i v = refl
  length-set (x ∷ xs) zero v = refl
  length-set (x ∷ xs) (suc i) v = ap suc (length-set xs i v)

  pub get_or-set_self :
      (xs : List A) (i : ℕ) (v d : A) → i < length xs → get_or (set xs i v) i d ≡ v
  get_or-set_self [] i v d h = absurd (omega arith)
  get_or-set_self (x ∷ xs) zero v d h = refl
  get_or-set_self (x ∷ xs) (suc i) v d h = get_or-set_self xs i v d (omega arith)

  pub get_or-set_ne :
      (xs : List A) {i j : ℕ} (v d : A) → i ≢ j → get_or (set xs i v) j d ≡ get_or xs j d
  get_or-set_ne [] v d h = refl
  get_or-set_ne (x ∷ xs) {i = zero} {j = zero} v d h = absurd (h refl)
  get_or-set_ne (x ∷ xs) {i = zero} {j = suc j} v d h = refl
  get_or-set_ne (x ∷ xs) {i = suc i} {j = zero} v d h = refl
  get_or-set_ne (x ∷ xs) {i = suc i} {j = suc j} v d h = get_or-set_ne xs v d (λ e. h (ap suc e))

  pub get_elem?-eq-get_or :
      (xs : List A) (i : ℕ) (d : A) → i < length xs → get_elem? xs i ≡ some (get_or xs i d)
  get_elem?-eq-get_or [] i d h = absurd (omega arith)
  get_elem?-eq-get_or (x ∷ xs) zero d h = refl
  get_elem?-eq-get_or (x ∷ xs) (suc i) d h = get_elem?-eq-get_or xs i d (omega arith)

-- Membership as a test, so that `ground` decides it.
abbrev pub mem : ℕ → List ℕ → Bool
mem a [] = false
mem a (x ∷ xs) = (x == a) || mem a xs

abbrev pub IsDistinct : List ℕ → Type 0
IsDistinct [] = Unit
IsDistinct (x ∷ xs) = (mem x xs ≡ false) × IsDistinct xs

-- The list without the first `a`.
abbrev pub erase : ℕ → List ℕ → List ℕ
erase a [] = []
erase a (x ∷ xs) = if x == a then xs else x ∷ erase a xs

pub mem-append : (a : ℕ) (xs ys : List ℕ) → mem a (xs ++ ys) ≡ (mem a xs || mem a ys)
mem-append a [] ys = refl
mem-append a (x ∷ xs) ys = ground (arith, mem-append a xs ys)

pub mem-erase_of_not : (a b : ℕ) (xs : List ℕ) → mem a xs ≡ false → mem a (erase b xs) ≡ false
mem-erase_of_not a b [] h = refl
mem-erase_of_not a b (x ∷ xs) h = ground (arith, mem-erase_of_not a b xs)

pub erase_of_not_mem : (a : ℕ) (xs : List ℕ) → mem a xs ≡ false → erase a xs ≡ xs
erase_of_not_mem a [] h = refl
erase_of_not_mem a (x ∷ xs) h = ground (arith, erase_of_not_mem a xs)

pub mem-erase_self : (a : ℕ) (xs : List ℕ) → IsDistinct xs → mem a (erase a xs) ≡ false
mem-erase_self a [] d = refl
mem-erase_self a (x ∷ xs) d = ground (arith, mem-erase_self a xs)

pub erase-IsDistinct : (a : ℕ) (xs : List ℕ) → IsDistinct xs → IsDistinct (erase a xs)
erase-IsDistinct a [] d = d
erase-IsDistinct a (x ∷ xs) d = ground (arith, erase-IsDistinct a xs, mem-erase_of_not x a xs)

pub snoc-IsDistinct :
    (a : ℕ) (xs : List ℕ) → IsDistinct xs → mem a xs ≡ false → IsDistinct (xs ++ a ∷ [])
snoc-IsDistinct a [] d h = ground arith
snoc-IsDistinct a (x ∷ xs) d h = ground (arith, snoc-IsDistinct a xs, mem-append x xs (a ∷ []))

pub mem-erase-ne : (a t : ℕ) (xs : List ℕ) → (t == a) ≡ false → mem a (erase t xs) ≡ mem a xs
mem-erase-ne a t [] n = refl
mem-erase-ne a t (x ∷ xs) n = ground (arith, mem-erase-ne a t xs)

pub length-erase : (a : ℕ) (xs : List ℕ) → mem a xs ≡ true → length xs ≡ suc (length (erase a xs))
length-erase a [] h = ground arith
length-erase a (x ∷ xs) h = ground (arith, length-erase a xs)

-- Distinct numbers below `n` are at most `n`.
pub IsDistinct-length :
    (n : ℕ) (xs : List ℕ) → IsDistinct xs → ((a : ℕ) → mem a xs ≡ true → a < n) → length xs ≤ n
IsDistinct-length zero [] d h = omega arith
IsDistinct-length zero (x ∷ xs) d h = absurd (omega (arith, h x (ground arith)))
IsDistinct-length (suc n) xs d h = bounded (
    IsDistinct-length n (erase n xs) (erase-IsDistinct n xs d)
      (λ a m. ground (arith, h a, mem-erase_self n xs d, mem-erase_of_not a n xs)))
  where
    bounded : length (erase n xs) ≤ n → length xs ≤ suc n
    bounded l = ground (arith, length-erase n xs, erase_of_not_mem n xs)
