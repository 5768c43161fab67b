-- ===== src/Buddy/Defs.antt =====
-- mm/malloc.c: `buddy_large_avail`, `buddy_exp`, `buddy_get`, `buddy_put`, `kmalloc` and `kfree`.
-- An address is a number, 0 is NULL, and `memory` gives the 8 bytes of the union `buddy_t` at an
-- address, the first byte lowest. What `palloc` returns for a size is the argument `pages`.
use libhermit.Base.{
  ℕ, zero, suc, ◌+◌, ◌-◌, ◌*◌, ◌/◌, ◌%◌, ◌^◌, Bool, true, false, Option, none, some, ltb, leb, ◌==◌,
  if◌then◌else◌, ◌&&◌, not, update,
}

-- `buddy_lists`, and the blocks.
pub record Heap : Type 0 where
  pub memory : ℕ → ℕ
  pub lists : ℕ → ℕ

abbrev pub buddy_max : ℕ
buddy_max = 32

abbrev pub buddy_min : ℕ
buddy_min = 6

abbrev pub buddy_alloc : ℕ
buddy_alloc = 16

-- 0xBABE
abbrev pub buddy_magic : ℕ
buddy_magic = 47806

-- The fields of `buddy_t`.
abbrev pub exponent_of : ℕ → ℕ
exponent_of word = word % 2 ^ 8

abbrev pub magic_of : ℕ → ℕ
magic_of word = word / 2 ^ 16 % 2 ^ 16

abbrev pub set_exponent : ℕ → ℕ → ℕ
set_exponent exp word = word / 2 ^ 8 * 2 ^ 8 + exp % 2 ^ 8

abbrev pub set_magic : ℕ → ℕ → ℕ
set_magic magic word = word / 2 ^ 32 * 2 ^ 32 + magic % 2 ^ 16 * 2 ^ 16 + word % 2 ^ 16

-- `1<<exp`, an `int` that becomes a `size_t`: from 31 on, the shift overflows, and the sign bit
-- fills the upper half.
unfoldable pub one_shl : ℕ → ℕ
one_shl exp = if ltb exp 31 then 2 ^ exp else 2 ^ 64 - 2 ^ 31

-- The loop of `buddy_large_avail`. It is called with `buddy_max - exp`, the steps that are left to
-- the end of the array.
unfoldable pub avail_loop : ℕ → Heap → ℕ → ℕ
avail_loop zero h exp = exp
avail_loop (suc left) h exp = elim (ltb exp buddy_max && h.lists (exp - buddy_min) == 0) [
  | true ↦ avail_loop left h (exp + 1)
  | false ↦ exp
]

abbrev pub buddy_large_avail : Heap → ℕ → Bool
buddy_large_avail h exp = not (avail_loop (buddy_max - exp) h exp == buddy_max)

-- The loop of `buddy_exp`; `none` is out of fuel.
unfoldable pub exp_loop : ℕ → ℕ → ℕ → Option ℕ
exp_loop zero sz exp = none
exp_loop (suc fuel) sz exp = elim (ltb (one_shl exp) sz) [
  | true ↦ exp_loop fuel sz (exp + 1)
  | false ↦ some exp
]

abbrev pub clamp_exp : ℕ → ℕ
clamp_exp exp =
    let exp' = if ltb buddy_max exp then 0 else exp in
    if ltb exp' buddy_min then buddy_min else exp'

unfoldable pub buddy_exp : ℕ → ℕ → Option ℕ
buddy_exp fuel sz = elim (exp_loop fuel sz 0) [ none ↦ none | some exp ↦ some (clamp_exp exp) ]

-- The first block of the list `exp` is taken off.
abbrev pub take_first : ℕ → Heap → ℕ × Heap
take_first exp h =
    let buddy = h.lists (exp - buddy_min) in
    (buddy, record h { lists = update h.lists (exp - buddy_min) (h.memory buddy) })

-- A block is put to the front of the list `exp`.
abbrev pub put_first : ℕ → ℕ → Heap → Heap
put_first exp buddy h = record {
  memory = update h.memory buddy (h.lists (exp - buddy_min));
  lists = update h.lists (exp - buddy_min) buddy;
}

-- What follows the recursive call: the second half goes back to the list.
abbrev pub split_buddy : ℕ → ℕ × Heap → ℕ × Heap
split_buddy exp (buddy, h) =
    if buddy == 0 then (0, h) else (buddy, put_first exp ((buddy + one_shl exp) % 2 ^ 64) h)

unfoldable pub buddy_get : ℕ → (ℕ → ℕ) → ℕ → Heap → Option (ℕ × Heap)
buddy_get zero pages exp h = none
buddy_get (suc fuel) pages exp h = elim (h.lists (exp - buddy_min) == 0) [
  | false ↦ some (take_first exp h)
  | true ↦ elim (leb buddy_alloc exp && not (buddy_large_avail h exp)) [
    | true ↦ some (pages (one_shl exp), h)
    | false ↦ elim (buddy_get fuel pages (exp + 1) h) [
      | none ↦ none
      | some r ↦ some (split_buddy exp r)
    ]
  ]
]

abbrev pub buddy_put : ℕ → Heap → Heap
buddy_put buddy h = put_first (exponent_of (h.memory buddy)) buddy h

-- The prefix is set up, and the result is the address behind it.
abbrev pub hand_out : ℕ → ℕ × Heap → ℕ × Heap
hand_out exp (buddy, h) = if buddy == 0 then (0, h) else (
  (buddy + 8) % 2 ^ 64,
  record h {
    memory = update h.memory buddy (set_exponent exp (set_magic buddy_magic (h.memory buddy)));
  },
)

unfoldable pub kmalloc : ℕ → (ℕ → ℕ) → ℕ → Heap → Option (ℕ × Heap)
kmalloc fuel pages sz h =
    if sz == 0 then some (0, h) else elim (buddy_exp fuel ((sz + 8) % 2 ^ 64)) [
      | none ↦ none
      | some exp ↦
          if exp == 0
          then some (0, h)
          else elim (buddy_get fuel pages exp h) [ none ↦ none | some r ↦ some (hand_out exp r) ]
    ]

unfoldable pub kfree : ℕ → Heap → Heap
kfree addr h =
    if addr == 0
    then h
    else let buddy = (addr + 2 ^ 64 - 8) % 2 ^ 64 in
      if magic_of (h.memory buddy) == buddy_magic then buddy_put buddy h else h
