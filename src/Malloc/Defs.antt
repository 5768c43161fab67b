-- ===== src/Malloc/Defs.antt =====
-- mm/malloc.c: `palloc`, `create_stack` and `destroy_stack`. `page_map` is an argument, a function
-- of the addresses, the number of pages, the flags and the memory, from which it takes pages for
-- tables: whether it fails, and the memory it leaves. What `has_nx` and `virt_to_phys` return are
-- arguments, and so are the nodes that `kmalloc` gives to `vma_alloc` (`new`), to `vma_free`
-- (`spare`) and to `put_pages` (`news`). A result 0 is NULL; `none` is a walk that runs out of fuel.
use libhermit.Base.{
  ℕ, ◌+◌, ◌-◌, ◌*◌, ◌/◌, ◌%◌, ◌^◌, Bool, Option, none, some, List, ◌==◌, if◌then◌else◌,
}
use libhermit.Vma.{Vmas, vma_alloc, vma_free, page_ceil}
use libhermit.Pages.{Memory, get_pages, put_pages}

pub record Mm : Type 0 where
  pub vmas : Vmas
  pub memory : Memory

-- `uint32_t npages = PAGE_CEIL(sz) >> PAGE_BITS`
abbrev pub page_count : ℕ → ℕ
page_count sz = page_ceil sz / 4096 % 2 ^ 32

-- The call of `vma_free`, whose result is not used.
abbrev pub drop_area : ℕ → ℕ → ℕ → Option ℕ → Mm → Option Mm
drop_area fuel start end spare mm = elim (vma_free fuel start end spare mm.vmas) [
  | none ↦ none
  | some (_, _, vmas) ↦ some (record mm { vmas = vmas })
]

-- The call of `put_pages`, whose result is not used.
abbrev pub drop_pages : ℕ → ℕ → ℕ → List ℕ → Mm → Option Mm
drop_pages fuel phyaddr npages news mm = elim (put_pages fuel phyaddr npages news mm.memory) [
  | none ↦ none
  | some (_, memory) ↦ some (record mm { memory = memory })
]

-- Failure, after the state `r` has been restored.
abbrev pub fail : Option Mm → Option (ℕ × Mm)
fail r = elim r [ none ↦ none | some mm ↦ some (0, mm) ]

-- The type of `page_map`: its arguments are `viraddr`, `phyaddr`, `npages` and `bits`.
abbrev pub PageMap : Type 0
PageMap = ℕ → ℕ → ℕ → ℕ → Memory → Bool × Memory

-- PG_RW|PG_GLOBAL|PG_NX; PG_GLOBAL is 0, and PG_NX is 0 without `has_nx`.
abbrev pub data_bits : Bool → ℕ
data_bits has_nx = if has_nx then 2 + 2 ^ 63 else 2

-- What `palloc` and `create_stack` do when they have the area from `viraddr` to `end`; `result` is
-- the address to which the pages are mapped, and which is returned.
abbrev pub back_area : ℕ → ℕ → ℕ → ℕ → ℕ → PageMap → ℕ → Option ℕ → List ℕ → Mm → Option (ℕ × Mm)
back_area fuel viraddr end npages result page_map bits spare news mm =
    elim (get_pages fuel npages mm.memory) [
      | none ↦ none
      | some (phyaddr, memory) ↦
          let mm1 = record mm { memory = memory } in
          if phyaddr == 0
          then fail (drop_area fuel viraddr end spare mm1)
          else let (failed, mapped) = page_map result phyaddr npages bits memory in
            let mm2 = record mm { memory = mapped } in
            if failed
            then elim (drop_area fuel viraddr end spare mm2) [
              | none ↦ none
              | some mm3 ↦ fail (drop_pages fuel phyaddr npages news mm3)
            ]
            else some (result, mm2)
    ]

unfoldable pub palloc :
    ℕ → ℕ → ℕ → PageMap → Bool → Option ℕ → Option ℕ → List ℕ → Mm → Option (ℕ × Mm)
palloc fuel sz flags page_map has_nx new spare news mm =
    elim (vma_alloc fuel (page_ceil sz) flags new mm.vmas) [
      | none ↦ none
      | some (viraddr, vmas) ↦
          let mm1 = record mm { vmas = vmas } in
          if viraddr == 0
          then some (0, mm1)
          else back_area fuel viraddr ((viraddr + page_count sz * 4096) % 2 ^ 64) (page_count sz)
              viraddr page_map (data_bits has_nx) spare news mm1
    ]

-- One page on each side of the stack stays without memory. 11 is VMA_READ|VMA_WRITE|VMA_CACHEABLE.
unfoldable pub create_stack :
    ℕ → ℕ → PageMap → Bool → Option ℕ → Option ℕ → List ℕ → Mm → Option (ℕ × Mm)
create_stack fuel sz page_map has_nx new spare news mm =
    let npages = page_count sz in
    if sz == 0
    then some (0, mm)
    else elim (vma_alloc fuel ((npages + 2) % 2 ^ 32 * 4096) 11 new mm.vmas) [
      | none ↦ none
      | some (viraddr, vmas) ↦
          let mm1 = record mm { vmas = vmas } in
          if viraddr == 0
          then some (0, mm1)
          else back_area fuel viraddr ((viraddr + (npages + 2) % 2 ^ 32 * 4096) % 2 ^ 64) npages
              ((viraddr + 4096) % 2 ^ 64) page_map (data_bits has_nx) spare news mm1
    ]

-- 0, -EINVAL and -ENOMEM
pub data FreeCode : Type 0 where
  ok einval enomem : FreeCode

-- `phyaddr` is what `virt_to_phys` gives.
unfoldable pub destroy_stack : ℕ → ℕ → ℕ → ℕ → Option ℕ → List ℕ → Mm → Option (FreeCode × Mm)
destroy_stack fuel viraddr sz phyaddr spare news mm =
    let npages = page_count sz in
    if viraddr == 0
    then some (einval, mm)
    else if sz == 0
    then some (einval, mm)
    else if phyaddr == 0
    then some (enomem, mm)
    else elim (drop_area fuel ((viraddr + 2 ^ 64 - 4096) % 2 ^ 64)
        ((viraddr + (npages + 1) % 2 ^ 32 * 4096) % 2 ^ 64) spare mm) [
          | none ↦ none
          | some mm1 ↦ elim (drop_pages fuel phyaddr npages news mm1) [
            | none ↦ none
            | some mm2 ↦ some (ok, mm2)
          ]
        ]
