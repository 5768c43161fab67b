-- ===== src/Buddy/Pool.antt =====
-- The blocks of the heap: the free ones of each list, and those that are handed out. How many of
-- them an address lies in is a sum over the blocks, so that a split or a move between two lists is
-- a sum written in another way.
use libhermit.Base.{
  ℕ, zero, suc, ◌+◌, ◌-◌, ◌^◌, ◌≤◌, ◌<◌, ◌≡◌, refl, ap, subst, false, List, [], ◌∷◌, ◌++◌, arith,
  ltb, leb, ◌==◌, ==-refl, ◌&&◌, if◌then◌else◌, update, inl, inr, Bool-cases,
}
use native.Mathlib.Nat.{two-pow-succ}
use libhermit.Buddy.Defs.{Heap, exponent_of, magic_of, buddy_magic}
use libhermit.Buddy.Size.{pow-pos}

pub record Block : Type 0 where
  pub addr : ℕ
  pub exp : ℕ

-- 1 if the address `b` lies in the `2 ^ e` bytes from `a` on.
abbrev pub inside : ℕ → ℕ → ℕ → ℕ
inside a e b = if leb a b && ltb b (a + 2 ^ e) then 1 else 0

-- In how many of the free blocks of one size.
abbrev pub at : ℕ → List ℕ → ℕ → ℕ
at e [] b = 0
at e (x ∷ xs) b = inside x e b + at e xs b

-- In how many of the free blocks of exponents below `n`.
abbrev pub free_count : (ℕ → List ℕ) → ℕ → ℕ → ℕ
free_count frees zero b = 0
free_count frees (suc n) b = at n (frees n) b + free_count frees n b

-- In how many of the free blocks of less than 2 ^ 31 bytes.
unfoldable pub pool : (ℕ → List ℕ) → ℕ → ℕ
pool frees b = free_count frees 31 b

-- In how many of the blocks that are handed out.
abbrev pub used_count : List Block → ℕ → ℕ
used_count [] b = 0
used_count (x ∷ xs) b = inside x.addr x.exp b + used_count xs b

-- A list of free blocks, linked by their first words.
abbrev pub Chain : (ℕ → ℕ) → ℕ → ℕ → List ℕ → Type 0
Chain memory e p [] = p ≡ 0
Chain memory e p (x ∷ xs) = (p ≡ x) × (0 < x) × (x + 2 ^ e ≤ 2 ^ 64) × Chain memory e (memory x) xs

-- The lists hold the blocks `frees`, none of 2 ^ 31 bytes or more, and no two blocks of the heap
-- have an address in common.
pub record IsValid (h : Heap) (frees : ℕ → List ℕ) (used : List Block) : Type 0 where
  pub chains : (e : ℕ) → 6 ≤ e → e < 31 → Chain h.memory e (h.lists (e - 6)) (frees e)
  pub top : h.lists 25 ≡ 0
  pub apart : (b : ℕ) → pool frees b + used_count used b ≤ 1

-- The blocks that are handed out carry their prefix.
abbrev pub Marked : (ℕ → ℕ) → List Block → Type 0
Marked memory [] = Unit
Marked memory (x ∷ xs) =
    ((0 < x.addr)
      × (6 ≤ x.exp)
      × (x.exp < 31)
      × (x.addr + 2 ^ x.exp ≤ 2 ^ 64)
      × (exponent_of (memory x.addr) ≡ x.exp)
      × (magic_of (memory x.addr) ≡ buddy_magic))
    × Marked memory xs

pub inside_self : (a e : ℕ) → inside a e a ≡ 1
inside_self a e = ground (arith, pow-pos e)

-- The halves of a block.
pub inside-halves : (a e b : ℕ) → inside a (e + 1) b ≡ inside a e b + inside (a + 2 ^ e) e b
inside-halves a e b = ground (arith, two-pow-succ e, pow-pos e)

at-le : (frees : ℕ → List ℕ) (n e b : ℕ) → e < n → at e (frees e) b ≤ free_count frees n b
at-le frees zero e b l = absurd (omega arith)
at-le frees (suc n) e b l = elim (Bool-cases (e == n)) [
  | inl c ↦
      let same : n ≡ e = ground arith in
      subst (λ i. at i (frees i) b ≤ free_count frees (suc n) b) same (omega arith)
  | inr c ↦ omega (arith, at-le frees n e b (ground arith))
]

free_count-above :
    (frees : ℕ → List ℕ) (n e b : ℕ) (xs : List ℕ)
    → n ≤ e
    → free_count (update frees e xs) n b ≡ free_count frees n b
free_count-above frees zero e b xs l = refl
free_count-above frees (suc n) e b xs l =
    let other : (e == n) ≡ false = ground arith in
    rw other (ap (λ c. at n (frees n) b + c) (free_count-above frees n e b xs (omega arith)))

-- The list of one size is changed.
free_count-update :
    (frees : ℕ → List ℕ) (n e b : ℕ) (xs : List ℕ)
    → e < n
    → free_count (update frees e xs) n b + at e (frees e) b ≡ free_count frees n b + at e xs b
free_count-update frees zero e b xs l = absurd (omega arith)
free_count-update frees (suc n) e b xs l = elim (Bool-cases (e == n)) [
  | inl c ↦
      let same : n ≡ e = ground arith in
      subst
        (λ i.
          free_count (update frees i xs) (suc n) b + at i (frees i) b
          ≡ free_count frees (suc n) b + at i xs b)
        same (rw (==-refl n) (omega (arith, free_count-above frees n n b xs (omega arith))))
  | inr c ↦ rw c (omega (arith, free_count-update frees n e b xs (ground arith)))
]

module _ (frees : ℕ → List ℕ) (e b : ℕ) (l : e < 31) where
  pub at-pool : at e (frees e) b ≤ pool frees b
  unfolding pool
  at-pool = at-le frees 31 e b l

  pub pool-update :
      (xs : List ℕ) → pool (update frees e xs) b + at e (frees e) b ≡ pool frees b + at e xs b
  unfolding pool
  pool-update xs = free_count-update frees 31 e b xs l

-- A write to an address in no free block, or in no block that is handed out.
pub write-Chain :
    (memory : ℕ → ℕ) (w v e p : ℕ) (xs : List ℕ)
    → at e xs w ≡ 0
    → Chain memory e p xs
    → Chain (update memory w v) e p xs
write-Chain memory w v e p [] z c = c
write-Chain memory w v e p (x ∷ xs) z c =
    let other : (w == x) ≡ false = ground (arith, inside_self x e) in
    (c.0, c.1, c.2, rw other (write-Chain memory w v e (memory x) xs (omega arith) c.3))

pub write-Marked :
    (memory : ℕ → ℕ) (w v : ℕ) (used : List Block)
    → used_count used w ≡ 0
    → Marked memory used
    → Marked (update memory w v) used
write-Marked memory w v [] z m = m
write-Marked memory w v (x ∷ xs) z m =
    let other : (w == x.addr) ≡ false = ground (arith, inside_self x.addr x.exp) in
    (rw other m.0, write-Marked memory w v xs (omega arith) m.1)

pub used_count-append :
    (xs ys : List Block) (b : ℕ) → used_count (xs ++ ys) b ≡ used_count xs b + used_count ys b
used_count-append [] ys b = omega arith
used_count-append (x ∷ xs) ys b = omega (arith, used_count-append xs ys b)

pub Marked-append :
    (memory : ℕ → ℕ) (xs ys : List Block)
    → Marked memory xs
    → Marked memory ys
    → Marked memory (xs ++ ys)
Marked-append memory [] ys m k = k
Marked-append memory (x ∷ xs) ys m k = (m.0, Marked-append memory xs ys m.1 k)

pub Marked-parts :
    (memory : ℕ → ℕ) (xs ys : List Block)
    → Marked memory (xs ++ ys)
    → Marked memory xs × Marked memory ys
Marked-parts memory [] ys m = (tt, m)
Marked-parts memory (x ∷ xs) ys m = let (k, l) = Marked-parts memory xs ys m.1 in ((m.0, k), l)
