-- ===== src/Malloc/Reserve.antt =====
-- `palloc` hands out a range of addresses that was free, with pages for it.
use libhermit.Base.{
  ℕ, ◌+◌, ◌*◌, ◌/◌, ◌%◌, ◌^◌, ◌≤◌, ◌<◌, ◌≡◌, refl, Bool, false, Option, none, some, List, arith, ap,
  subst, ◌∙◌, ◌==◌, if◌then◌else◌, length, inl, inr, ◌⊎◌,
}
use libhermit.Vma.{Vmas, page_ceil}
use libhermit.Vma.Areas.{IsValid}
use libhermit.Vma.Alloc.{IsNew, Reserved, vma_alloc-Allocated}
use libhermit.Pages.{Memory, get_pages}
use libhermit.Malloc.Defs.{
  Mm, PageMap, page_count, data_bits, palloc, back_area, fail, drop_area, drop_pages,
}

twice_lem : (sz : ℕ) → sz ≤ 2 ^ 40 → page_ceil (page_ceil sz) ≡ page_ceil sz
twice_lem sz bound = omega arith

small_lem : (sz : ℕ) → sz ≤ 2 ^ 40 → page_ceil sz ≤ 2 ^ 40
small_lem sz bound = omega arith

count_lem : (sz : ℕ) → sz ≤ 2 ^ 40 → page_count sz ≡ page_ceil sz / 4096
count_lem sz bound = omega arith

-- `palloc` from the result of its call of `vma_alloc`.
abbrev run : ℕ → ℕ → PageMap → ℕ → Option ℕ → List ℕ → Mm → Option (ℕ × Vmas) → Option (ℕ × Mm)
run fuel sz page_map bits spare news mm r = elim r [
  | none ↦ none
  | some (viraddr, vmas) ↦
      let mm1 = record mm { vmas = vmas } in
      if viraddr == 0
      then some (0, mm1)
      else back_area fuel viraddr ((viraddr + page_count sz * 4096) % 2 ^ 64) (page_count sz)
          viraddr page_map bits spare news mm1
]

module _ (fuel viraddr end npages result : ℕ) (page_map : PageMap) (bits : ℕ) (spare : Option ℕ)
    (news : List ℕ) (mm : Mm) (phyaddr : ℕ) (memory : Memory) where
  back_area-mapped :
      get_pages fuel npages mm.memory ≡ some (phyaddr, memory)
      → (phyaddr == 0) ≡ false
      → (page_map result phyaddr npages bits memory).0 ≡ false
      → back_area fuel viraddr end npages result page_map bits spare news mm
        ≡ some (result, record mm { memory = (page_map result phyaddr npages bits memory).1 })
  back_area-mapped pages found mapped = ap answer pages ∙ ap chosen found ∙ ap tried mapped
    where
      left : Mm
      left = record mm { memory = (page_map result phyaddr npages bits memory).1 }

      tried : Bool → Option (ℕ × Mm)
      tried b =
          if b
          then elim (drop_area fuel viraddr end spare left) [
            | none ↦ none
            | some mm3 ↦ fail (drop_pages fuel phyaddr npages news mm3)
          ]
          else some (result, left)

      chosen : Bool → Option (ℕ × Mm)
      chosen b =
          if b
          then fail (drop_area fuel viraddr end spare (record mm { memory = memory }))
          else tried (page_map result phyaddr npages bits memory).0

      answer : Option (ℕ × Memory) → Option (ℕ × Mm)
      answer r = elim r [
        | none ↦ none
        | some (p, m) ↦
            if p == 0
            then fail (drop_area fuel viraddr end spare (record mm { memory = m }))
            else let (failed, mapped) = page_map result p npages bits m in
              let mm2 = record mm { memory = mapped } in
              if failed
              then elim (drop_area fuel viraddr end spare mm2) [
                | none ↦ none
                | some mm3 ↦ fail (drop_pages fuel p npages news mm3)
              ]
              else some (result, mm2)
      ]

module _ {mm : Mm} {ids : List ℕ} (v : IsValid mm.vmas ids) (fuel sz flags : ℕ) (page_map : PageMap)
    (has_nx : Bool) (new spare : Option ℕ) (news : List ℕ) (fresh : IsNew new ids)
    (enough : length ids < fuel) (bound : sz ≤ 2 ^ 40) (phyaddr : ℕ) (memory : Memory)
    (pages : get_pages fuel (page_count sz) mm.memory ≡ some (phyaddr, memory))
    (found : (phyaddr == 0) ≡ false)
    (succeeds : (a : ℕ)
      → (page_map a phyaddr (page_count sz) (data_bits has_nx) memory).0 ≡ false) where
  -- For at most 2 ^ 40 bytes, with fuel above the number of areas, if `get_pages` finds
  -- PAGE_CEIL(sz) bytes at `phyaddr`, and `page_map` maps them wherever it is asked to, `palloc`
  -- returns. Either its result is NULL, `vma_alloc` has reserved no area, and nothing changes, or
  -- it is the start of PAGE_CEIL(sz) addresses that were free and are now used, the list of areas
  -- stays valid, and the memory is what `page_map` leaves when it maps the pages at `phyaddr` to
  -- the result, writable, and not executable if the processor can do that.
  pub palloc-Reserved :
      (palloc fuel sz flags page_map has_nx new spare news mm ≡ some (0, mm))
      ⊎ ((start : ℕ) × (mm' : Mm) × (ids' : List ℕ) × (palloc fuel sz flags page_map has_nx new
              spare news mm
            ≡ some (start, mm'))
          × IsValid mm'.vmas ids'
          × Reserved mm.vmas mm'.vmas ids ids' start (start + page_ceil sz)
          × (mm'.memory
              ≡ (page_map start phyaddr
                  (page_ceil sz / 4096)
                  (if has_nx then 2 + 2 ^ 63 else 2)
                  memory).1))
  unfolding palloc
  palloc-Reserved =
      let (start, vmas, ids', e, valid, _, outcome) =
        vma_alloc-Allocated v fuel (page_ceil sz) flags new fresh enough (small_lem sz bound) in
      let bits = data_bits has_nx in
      elim outcome [
        | inl (null, same, _) ↦
            inl (ap (run fuel sz page_map bits spare news mm) e ∙ rw (null, same) refl)
        | inr reserved ↦
            let up : (start == 0) ≡ false = ground (arith, reserved.above) in
            inr (
              start,
              record {
                vmas = vmas;
                memory = (page_map start phyaddr (page_count sz) bits memory).1;
              },
              ids',
              ap (run fuel sz page_map bits spare news mm) e
                  ∙ rw up (
                      back_area-mapped fuel start ((start + page_count sz * 4096) % 2 ^ 64)
                        (page_count sz) start page_map bits spare news (record mm { vmas = vmas })
                        phyaddr memory pages found (succeeds start)),
              valid,
              subst (λ n. Reserved mm.vmas vmas ids ids' start (start + n)) (twice_lem sz bound)
                  reserved,
              ap (λ n. (page_map start phyaddr n bits memory).1) (count_lem sz bound),
            )
      ]
