-- ===== src/Buddy/Tests.antt =====
-- A heap without blocks, and one with a single block that is handed out.
use libhermit.Base.{
  ℕ, ◌+◌, ◌-◌, ◌*◌, ◌^◌, ◌≤◌, ◌<◌, ◌≡◌, refl, false, some, [], ◌∷◌, arith, ◌==◌, if◌then◌else◌, inr,
}
use native.Mathlib.Nat.{pow-le-pow_right}
use libhermit.Buddy.Defs.{Heap, one_shl, exp_loop, buddy_exp, kmalloc, kfree}
use libhermit.Buddy.Size.{buddy_exp-bounds}
use libhermit.Buddy.Pool.{Block, pool, IsValid, Marked}
use libhermit.Buddy.Lists.{Fresh}
use libhermit.Buddy.Alloc.{Allocated, kmalloc-Allocated, kmalloc-kfree}

abbrev empty : Heap
empty = record { memory = λ a. 0; lists = λ i. 0 }

pool-nil : (b : ℕ) → pool (λ e. []) b ≡ 0
unfolding pool
pool-nil b = refl

empty-IsValid : IsValid empty (λ e. []) []
empty-IsValid = record {
  chains = λ e l g. refl;
  top = refl;
  apart = λ b. omega (arith, pool-nil b);
}

-- `palloc` gives the addresses from 2 ^ 20 on.
abbrev pages : ℕ → ℕ
pages size = 1048576

pages-Fresh : Fresh pages (λ e. []) []
pages-Fresh k l g = inr (
  omega arith,
  omega (arith, pow-le-pow_right {n = 2} (omega arith) {i = k} {j = 30} (omega arith)),
  λ b. ground (arith, pool-nil b),
)

buddy_exp-bounds_example :
    (e : ℕ) × (buddy_exp 31 100 ≡ some e)
    × (6 ≤ e)
    × (e ≤ 30)
    × (100 ≤ 2 ^ e)
    × ((6 < e) → 2 ^ (e - 1) < 100)
buddy_exp-bounds_example = buddy_exp-bounds 31 100 (omega arith) (omega arith) (omega arith)

kmalloc-Allocated_example : Allocated 100 [] (kmalloc 31 pages 100 empty)
kmalloc-Allocated_example =
    kmalloc-Allocated empty-IsValid tt 31 pages 100 pages-Fresh (omega arith) (omega arith)

-- The block at 65536 has 64 bytes.
abbrev block : Block
block = record { addr = 65536; exp = 6 }

abbrev single : Heap
single = record { memory = λ a. if a == 65536 then 47806 * 65536 + 6 else 0; lists = λ i. 0 }

single-IsValid : IsValid single (λ e. []) (block ∷ [])
single-IsValid = record {
  chains = λ e l g. refl;
  top = refl;
  apart = λ b. ground (arith, pool-nil b);
}

single-Marked : Marked single.memory (block ∷ [])
single-Marked = ((omega arith, omega arith, omega arith, omega arith, refl, refl), tt)

kmalloc-kfree_example :
    (h' : Heap) × (kmalloc 32 pages 24 (kfree 65544 single) ≡ some (65544, h'))
    × ((i : ℕ) → h'.lists i ≡ single.lists i)
    × ((b : ℕ) → (65536 == b) ≡ false → h'.memory b ≡ single.memory b)
unfolding buddy_exp exp_loop one_shl
kmalloc-kfree_example =
    kmalloc-kfree [] [] block single-IsValid single-Marked 31 pages 24 (omega arith) (omega arith)
      refl
