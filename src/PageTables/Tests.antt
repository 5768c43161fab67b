-- ===== src/PageTables/Tests.antt =====
-- Two pages are mapped into empty tables, and into tables that are full.
use libhermit.Base.{
  ℕ, ◌+◌, ◌-◌, ◌/◌, ◌≤◌, ◌<◌, ◌≡◌, refl, true, false, List, [], ◌∷◌, arith, length, inr,
}
use libhermit.PageTables.Defs.{
  Tables, page_map, check_levels, check_pagetables, in_kernel, virt_to_phys,
}
use libhermit.PageTables.Fill.{Usable}
use libhermit.PageTables.Levels.{entries}
use libhermit.PageTables.Mapped.{page_map-maps, page_map-keeps}

abbrev empty : Tables
empty lvl index = 0

abbrev frames : List ℕ
frames = 4096 ∷ 8192 ∷ 12288 ∷ []

page_map-maps_example :
    let r = page_map 20480 65536 2 2 frames empty in
    (Usable frames → entries 5 2 3 ≤ length frames → r.0 ≡ true)
    × ((addr kernel_start image_size : ℕ)
        → r.0 ≡ true
        → 5 ≤ addr / 4096
        → addr / 4096 < 7
        → in_kernel kernel_start image_size addr ≡ false
        → (check_pagetables addr r.1 ≡ true)
          × (virt_to_phys kernel_start image_size addr r.1 ≡ 65536 + (addr - 20480)))
page_map-maps_example =
    page_map-maps 20480 65536 2 2 frames empty (omega arith) (omega arith) refl (omega arith)
      (omega arith) (omega arith)

-- Every page is mapped.
abbrev full : Tables
full lvl index = 1

page_map-keeps_example :
    let t' = (page_map 20480 65536 2 2 [] full).1 in (check_levels 4 7 t' ≡ true) × (t' 0 7 ≡ 1)
page_map-keeps_example =
    page_map-keeps 20480 65536 2 2 [] full (omega arith) 7 (omega arith) refl (inr (omega arith))
