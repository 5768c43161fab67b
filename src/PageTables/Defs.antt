-- ===== src/PageTables/Defs.antt =====
-- arch/x86_64/mm/page.c: `__page_map`, `page_unmap`, `virt_to_phys` and the check of the page fault
-- handler, for addresses in the lower half. `self[lvl][index]` is `t lvl index`: the self-reference
-- shows all tables of a level as one array. What the calls of `get_pages` return is the list
-- `frames`, in which 0, and the end of the list, is failure. The lock makes each function one step;
-- the TLB is left out.
use Prim.Native.Nat.{bit_or}
use libhermit.Vma.{page_2m_ceil}
use libhermit.Base.{
  ℕ, zero, suc, ◌+◌, ◌-◌, ◌*◌, ◌/◌, ◌%◌, ◌^◌, Bool, true, false, List, [], ◌∷◌, ltb, leb, ◌==◌,
  ◌&&◌, if◌then◌else◌, update,
}

abbrev pub Tables : Type 0
Tables = ℕ → ℕ → ℕ

-- PG_PRESENT
abbrev pub present : ℕ → Bool
present entry = entry % 2 == 1

-- PG_PRESENT | PG_ACCESSED | PG_DIRTY
abbrev pub page_bits : ℕ
page_bits = 97

-- PG_PRESENT | PG_USER | PG_RW | PG_ACCESSED | PG_DIRTY
abbrev pub table_bits : ℕ
table_bits = 103

-- `value & ~PG_XD`
abbrev pub without_xd : ℕ → ℕ
without_xd value = value % 2 ^ 63

-- `value & PAGE_MASK`
abbrev pub page_mask : ℕ → ℕ
page_mask value = without_xd (value / 4096 * 4096)

abbrev pub set_entry : ℕ → ℕ → ℕ → Tables → Tables
set_entry lvl index value t = update t lvl (update (t lvl) index value)

-- The table that the entry `index` of the level `lvl + 1` refers to.
abbrev pub clear_table : ℕ → ℕ → Tables → Tables
clear_table lvl index t =
    update t lvl (λ i. if leb (index * 512) i && ltb i (index * 512 + 512) then 0 else t lvl i)

-- A new table is referred to by its parent, and filled with zeros.
abbrev pub new_table : ℕ → ℕ → ℕ → ℕ → Tables → Tables
new_table lvl index paddr bits t =
    clear_table lvl index
      (set_entry (suc lvl) index (without_xd (bit_or (bit_or paddr bits) table_bits)) t)

-- The inner loop on the level `lvl + 1`, over `count` entries from `index` on.
unfoldable pub fill_level : ℕ → ℕ → ℕ → ℕ → List ℕ → Tables → Bool × List ℕ × Tables
fill_level lvl zero index bits frames t = (true, frames, t)
fill_level lvl (suc count) index bits frames t = elim (present (t (suc lvl) index)) [
  | true ↦ fill_level lvl count (index + 1) bits frames t
  | false ↦ elim frames [
    | [] ↦ (false, [], t)
    | paddr ∷ rest ↦ elim (paddr == 0) [
      | true ↦ (false, rest, t)
      | false ↦ fill_level lvl count (index + 1) bits rest (new_table lvl index paddr bits t)
    ]
  ]
]

-- The inner loop on the level 0.
unfoldable pub map_level : ℕ → ℕ → ℕ → ℕ → Tables → Tables
map_level zero index phyaddr bits t = t
map_level (suc count) index phyaddr bits t =
    map_level count (index + 1) ((phyaddr + 4096) % 2 ^ 64) bits
      (set_entry 0 index (bit_or (bit_or phyaddr bits) page_bits) t)

-- `first[lvl]`, and how many entries the loop `vpn=first[lvl]; vpn<=last[lvl]` visits; `last[lvl]`
-- is negative from 2 ^ 63 on.
abbrev pub first_at : ℕ → ℕ → ℕ
first_at vpn lvl = vpn / 2 ^ (lvl * 9)

abbrev pub last_at : ℕ → ℕ → ℕ → ℕ
last_at vpn npages lvl = (vpn + npages + 2 ^ 64 - 1) % 2 ^ 64 / 2 ^ (lvl * 9)

abbrev pub count_at : ℕ → ℕ → ℕ → ℕ
count_at vpn npages lvl =
    if ltb (last_at vpn npages lvl) (2 ^ 63)
    then last_at vpn npages lvl + 1 - first_at vpn lvl
    else 0

-- The levels from `lvl` down to 1.
unfoldable pub fill_levels : ℕ → ℕ → ℕ → ℕ → List ℕ → Tables → Bool × Tables
fill_levels zero vpn npages bits frames t = (true, t)
fill_levels (suc lvl) vpn npages bits frames t =
    let (done, rest, t') =
      fill_level lvl (count_at vpn npages (suc lvl)) (first_at vpn (suc lvl)) bits frames t in
    elim done [ true ↦ fill_levels lvl vpn npages bits rest t' | false ↦ (false, t') ]

-- The result is `true` for 0 and `false` for -ENOMEM.
unfoldable pub page_map : ℕ → ℕ → ℕ → ℕ → List ℕ → Tables → Bool × Tables
page_map viraddr phyaddr npages bits frames t =
    let vpn = viraddr / 4096 in
    let (done, t') = fill_levels 3 vpn npages bits frames t in
    elim done [
      | true ↦ (true, map_level (count_at vpn npages 0) (first_at vpn 0) phyaddr bits t')
      | false ↦ (false, t')
    ]

-- The loop of `page_unmap`.
unfoldable pub unmap_level : ℕ → ℕ → Tables → Tables
unmap_level zero vpn t = t
unmap_level (suc count) vpn t = unmap_level count (vpn + 1) (set_entry 0 vpn 0 t)

abbrev pub page_unmap : ℕ → ℕ → Tables → Tables
page_unmap viraddr npages t = unmap_level npages (viraddr / 4096) t

-- `check_pagetables`, from the level `lvl - 1` down.
abbrev pub check_levels : ℕ → ℕ → Tables → Bool
check_levels zero vpn t = true
check_levels (suc lvl) vpn t = present (t lvl (vpn / 2 ^ (lvl * 9))) && check_levels lvl vpn t

abbrev pub check_pagetables : ℕ → Tables → Bool
check_pagetables vaddr t = check_levels 4 (vaddr / 4096) t

-- `addr & ~PAGE_MASK`, which keeps bit 63, and the same for 2 MB pages.
abbrev pub page_off : ℕ → ℕ
page_off addr = addr / 2 ^ 63 * 2 ^ 63 + addr % 4096

abbrev pub large_off : ℕ → ℕ
large_off addr = addr / 2 ^ 63 * 2 ^ 63 + addr % 2 ^ 21

-- The kernel has large pages, up to `page_2m_ceil (kernel_start + image_size)`.
abbrev pub in_kernel : ℕ → ℕ → ℕ → Bool
in_kernel kernel_start image_size addr =
    ltb kernel_start addr && leb addr (page_2m_ceil ((kernel_start + image_size) % 2 ^ 64))

unfoldable pub virt_to_phys : ℕ → ℕ → ℕ → Tables → ℕ
virt_to_phys kernel_start image_size addr t =
    if in_kernel kernel_start image_size addr
    then bit_or (without_xd (t 1 (addr / 2 ^ 21) / 2 ^ 21 * 2 ^ 21)) (large_off addr)
    else bit_or (page_mask (t 0 (addr / 4096))) (page_off addr)
