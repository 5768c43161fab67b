-- ===== src/Vma/Defs.antt =====
-- mm/vma.c and include/hermit/vma.h. A node is named by a number, `none` is NULL, and `new` is the
-- result of the call of `kmalloc`, if it is made. The lock makes each function one step. `fuel`
-- bounds the walks; `none` is a walk that runs out of it.
use libhermit.Base.{
  ℕ, zero, suc, ◌+◌, ◌-◌, ◌*◌, ◌/◌, ◌%◌, ◌^◌, Bool, true, false, Option, none, some, ltb, leb, ◌==◌,
  if◌then◌else◌, ◌&&◌, is_some, update, update_at,
}
use libhermit.TaskList.{Links}

pub record Area : Type 0 where
  pub start : ℕ
  pub stop : ℕ
  pub flags : ℕ

-- `vma_list` and the nodes; `stop` is the field `end`.
pub record Vmas : Type 0 where
  pub areas : ℕ → Area
  pub links : Links
  pub list : Option ℕ

abbrev pub vma_min : ℕ
vma_min = 786432

abbrev pub vma_max : ℕ
vma_max = 2 ^ 64 - 3 * 2 ^ 39

-- PAGE_CEIL: the mask clears the lower 12 bits and bit 63.
abbrev pub page_ceil : ℕ → ℕ
page_ceil addr = (addr + 4095) % 2 ^ 64 / 4096 * 4096 % 2 ^ 63

abbrev pub page_floor : ℕ → ℕ
page_floor addr = addr / 4096 * 4096 % 2 ^ 63

abbrev pub page_2m_floor : ℕ → ℕ
page_2m_floor addr = addr / 2 ^ 21 * 2 ^ 21

abbrev pub page_2m_ceil : ℕ → ℕ
page_2m_ceil addr = (addr + 2 ^ 21 - 1) % 2 ^ 64 / 2 ^ 21 * 2 ^ 21

-- The bounds of the gap between two nodes.
abbrev pub gap_start : (ℕ → Area) → Option ℕ → ℕ → ℕ
gap_start areas none base = base
gap_start areas (some p) base = (areas p).stop

abbrev pub gap_end : (ℕ → Area) → Option ℕ → ℕ → ℕ
gap_end areas none limit = limit
gap_end areas (some s) limit = (areas s).start

abbrev pub next_of : Links → Option ℕ → Option ℕ
next_of l none = none
next_of l (some p) = l.next p

-- The test of the search in `vma_alloc`, on `size_t`.
abbrev pub gap_fits : ℕ → ℕ → ℕ → Bool
gap_fits size start end =
    ltb ((start + size) % 2 ^ 64) end && leb vma_min start && ltb ((start + size) % 2 ^ 64) vma_max

-- The search of `vma_alloc`: `some none` if no gap was found.
unfoldable pub find_gap : ℕ → ℕ → Vmas → Option ℕ → Option ℕ → Option (Option (Option ℕ × Option ℕ))
find_gap zero size s pred succ = none
find_gap (suc fuel) size s pred succ =
    elim (gap_fits size (gap_start s.areas pred vma_min) (gap_end s.areas succ vma_max)) [
      | true ↦ some (some (pred, succ))
      | false ↦ elim (is_some succ) [
        | true ↦ find_gap fuel size s succ (next_of s.links succ)
        | false ↦ some none
      ]
    ]

-- A new node between `pred` and `succ`.
abbrev pub insert_vma : ℕ → Area → Option ℕ → Option ℕ → Vmas → Vmas
insert_vma new area pred succ s = record {
  areas = update s.areas new area;
  links = record {
    next = update_at (update s.links.next new succ) pred (some new);
    prev = update_at (update s.links.prev new pred) succ (some new);
  };
  list = if is_some pred then s.list else some new;
}

abbrev pub resize : ℕ → ℕ → Vmas → Vmas
resize p stop s = record s { areas = update s.areas p (record (s.areas p) { stop = stop }) }

-- What follows `insert new VMA`: the result is the Boolean, with failure if `kmalloc` gives NULL.
abbrev pub insert_new : Option ℕ → Area → Option ℕ → Option ℕ → Vmas → Bool × Vmas
insert_new none area pred succ s = (false, s)
insert_new (some new) area pred succ s = (true, insert_vma new area pred succ s)

-- The code at `found`.
abbrev pub take_gap : ℕ → ℕ → Option ℕ → Option ℕ → Option ℕ → Vmas → ℕ × Vmas
take_gap size flags new none succ s =
    let (done, s') =
      insert_new new (record { start = vma_min; stop = (vma_min + size) % 2 ^ 64; flags = flags })
        none succ s in
    (if done then vma_min else 0, s')
take_gap size flags new (some p) succ s =
    let start = (s.areas p).stop in
    if (s.areas p).flags == flags
    then (start, resize p ((start + size) % 2 ^ 64) s)
    else (let (done, s') =
          insert_new new (record { start = start; stop = (start + size) % 2 ^ 64; flags = flags })
            (some p) succ s in
        (if done then start else 0, s'))

-- The result 0 is failure.
unfoldable pub vma_alloc : ℕ → ℕ → ℕ → Option ℕ → Vmas → Option (ℕ × Vmas)
vma_alloc fuel size flags new s = elim (find_gap fuel (page_ceil size) s none s.list) [
  | none ↦ none
  | some none ↦ some (0, s)
  | some (some (pred, succ)) ↦ some (take_gap (page_ceil size) flags new pred succ s)
]
