-- ===== src/Pages/Boot.antt =====
-- arch/x86_64/mm/memory.c: how `memory_init` fills the free list from the memory map of the boot
-- loader, when there is one. `base`, `image_size`, `kernel_start` and `mb_info` are what the loader
-- and the linker give.
use libhermit.Base.{
  ℕ, ◌+◌, ◌-◌, ◌/◌, ◌%◌, ◌^◌, Bool, Option, none, some, List, [], ◌∷◌, ltb, leb, ◌==◌, ◌&&◌,
  if◌then◌else◌, update,
}
use libhermit.Vma.{page_ceil, page_floor, page_2m_ceil, page_2m_floor}
use libhermit.Pages.Defs.{Node, Memory, get_pages}

-- An entry of the memory map; `available` is its type MULTIBOOT_MEMORY_AVAILABLE.
pub record Region : Type 0 where
  pub addr : ℕ
  pub len : ℕ
  pub available : Bool

-- `cmdline` is its address and size, if the loader has passed one.
pub record Layout : Type 0 where
  pub base : ℕ
  pub image_size : ℕ
  pub kernel_start : ℕ
  pub mb_info : ℕ
  pub cmdline : Option (ℕ × ℕ)

abbrev pub gap_below : ℕ
gap_below = 2 ^ 20

abbrev pub region_start : Region → ℕ
region_start r = page_ceil r.addr

abbrev pub region_end : Region → ℕ
region_end r = page_floor ((r.addr + r.len) % 2 ^ 64)

-- The counters `total_pages` and `total_available_pages`, and `init_list`.
pub record Totals : Type 0 where
  pub total_pages : ℕ
  pub total_available : ℕ
  pub init_list : Node

abbrev pub count_region : Region → Totals → Totals
count_region r t =
    let pages = (region_end r + 2 ^ 64 - region_start r) % 2 ^ 64 / 4096 in
    record t {
      total_pages = (t.total_pages + pages) % 2 ^ 64;
      total_available = (t.total_available + pages) % 2 ^ 64;
    }

abbrev pub holds_kernel : Layout → Region → Bool
holds_kernel e r =
    leb (region_start r) e.base
    && leb (page_2m_floor ((e.kernel_start + e.image_size) % 2 ^ 64)) (region_end r)

-- The first loop: `init_list` is what is left behind the kernel in the region that holds it.
unfoldable pub first_regions : Layout → List Region → Totals → Totals
first_regions e [] t = t
first_regions e (r ∷ rs) t =
    if r.available
    then first_regions e rs (
        count_region r (
          if holds_kernel e r
          then record t {
            init_list = record {
              start = page_2m_ceil ((e.kernel_start + e.image_size) % 2 ^ 64);
              stop = region_end r;
            };
          }
          else t))
    else first_regions e rs t

-- What the second loop makes of a region: its part below the kernel, above the first megabyte, the
-- boot information and the command line.
abbrev pub below_kernel : Layout → Region → ℕ
below_kernel e r =
    if leb (region_start r) e.base
      && leb (page_2m_ceil ((e.base + e.image_size) % 2 ^ 64)) (region_end r)
    then e.base
    else region_end r

abbrev pub above_gap : ℕ → ℕ
above_gap start = if ltb start gap_below then gap_below else start

abbrev pub above_info : Layout → ℕ → ℕ
above_info e start = if ltb start e.mb_info then page_ceil e.mb_info else start

abbrev pub above_cmdline : Layout → ℕ → ℕ
above_cmdline e start = elim e.cmdline [
  | none ↦ start
  | some (cmdline, size) ↦
      if ltb start ((cmdline + size) % 2 ^ 64) then page_ceil ((cmdline + size) % 2 ^ 64) else start
]

abbrev pub free_start_of : Layout → Region → ℕ
free_start_of e r = above_cmdline e (above_info e (above_gap (region_start r)))

-- The node `n`, a result of `kmalloc`, behind the last one.
abbrev pub append_node : ℕ → ℕ → ℕ → ℕ → Memory → Memory
append_node n last start stop m = record m {
  nodes = update m.nodes n (record { start = start; stop = stop });
  links = record {
    next = update (update m.links.next last (some n)) n none;
    prev = update m.links.prev n (some last);
  };
}

-- A call of `kmalloc`: the node it returns, and the sizes of the calls of `get_pages` that it makes
-- through `palloc`, none of them if the heap has a free block.
pub record Grant : Type 0 where
  pub node : ℕ
  pub sizes : List ℕ

-- The memory after these calls; `none` if one of them finds no pages, or runs out of fuel.
unfoldable pub allocate : ℕ → List ℕ → Memory → Option Memory
allocate fuel [] m = some m
allocate fuel (npages ∷ sizes) m = elim (get_pages fuel npages m) [
  | none ↦ none
  | some (ret, m') ↦ if ret == 0 then none else allocate fuel sizes m'
]

-- The second loop; `none` is the halt when `kmalloc` fails. `news` are its calls, which take pages
-- from the list that is being built.
unfoldable pub add_regions : ℕ → Layout → List Grant → ℕ → List Region → Memory → Option Memory
add_regions fuel e news last [] m = some m
add_regions fuel e news last (r ∷ rs) m =
    let start = free_start_of e r in
    let stop = below_kernel e r in
    if r.available && ltb start stop
    then elim news [
      | [] ↦ none
      | g ∷ gs ↦ elim (allocate fuel g.sizes m) [
        | none ↦ none
        | some m' ↦ add_regions fuel e gs g.node rs (append_node g.node last start stop m')
      ]
    ]
    else add_regions fuel e news last rs m
