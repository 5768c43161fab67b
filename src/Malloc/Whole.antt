-- ===== src/Malloc/Whole.antt =====
-- arch/x86_64/mm/memory.c: `page_alloc` and `page_free`, with the arguments that `palloc` has.
use libhermit.Base.{
  ℕ, ◌+◌, ◌*◌, ◌/◌, ◌%◌, ◌^◌, ◌≡◌, ap, Bool, false, Option, none, some, List, ◌==◌, ◌||◌,
  if◌then◌else◌,
}
use libhermit.Pages.{Memory}
use libhermit.Vma.{vma_alloc, page_ceil}
use libhermit.Malloc.Defs.{Mm, page_count, drop_area, drop_pages, back_area, palloc, PageMap}

-- PG_PRESENT|PG_GLOBAL|PG_XD, PG_RW for VMA_WRITE and PG_PCD without VMA_CACHEABLE
abbrev pub area_bits : ℕ → ℕ
area_bits flags =
    1 + 2 ^ 63 + (if flags / 2 % 2 == 1 then 2 else 0) + (if flags / 8 % 2 == 1 then 0 else 16)

unfoldable pub page_alloc :
    ℕ → ℕ → ℕ → PageMap → Option ℕ → Option ℕ → List ℕ → Mm → Option (ℕ × Mm)
page_alloc fuel sz flags page_map new spare news mm =
    if page_count sz == 0
    then some (0, mm)
    else elim (vma_alloc fuel (page_ceil sz) flags new mm.vmas) [
      | none ↦ none
      | some (viraddr, vmas) ↦
          let mm1 = record mm { vmas = vmas } in
          if viraddr == 0
          then some (0, mm1)
          else back_area fuel viraddr ((viraddr + page_count sz * 4096) % 2 ^ 64) (page_count sz)
              viraddr page_map (area_bits flags) spare news mm1
    ]

-- `phyaddr` is what `virt_to_phys` gives.
unfoldable pub page_free : ℕ → ℕ → ℕ → ℕ → Option ℕ → List ℕ → Mm → Option Mm
page_free fuel viraddr sz phyaddr spare news mm =
    if viraddr == 0 || sz == 0
    then some mm
    else elim (drop_area fuel viraddr ((viraddr + page_ceil sz) % 2 ^ 64) spare mm) [
      | none ↦ none
      | some mm1 ↦
          if phyaddr == 0 then some mm1 else drop_pages fuel phyaddr (page_ceil sz / 4096) news mm1
    ]

-- For a size of at least one page, `page_alloc` does what `palloc` does, if `page_map` does with
-- its flags what it does with those of `palloc`.
page_alloc-palloc :
    (fuel sz flags : ℕ) (page_map : ℕ → ℕ → ℕ → Memory → Bool × Memory) (has_nx : Bool)
    (new spare : Option ℕ) (news : List ℕ) (mm : Mm)
    → (page_count sz == 0) ≡ false
    → page_alloc fuel sz flags (λ v p n b. page_map v p n) new spare news mm
      ≡ palloc fuel sz flags (λ v p n b. page_map v p n) has_nx new spare news mm
unfolding page_alloc palloc
page_alloc-palloc fuel sz flags page_map has_nx new spare news mm some_pages =
    ap
      (λ b.
        if b
        then some (0, mm)
        else palloc fuel sz flags (λ v p n b. page_map v p n) has_nx new spare news mm)
      some_pages
