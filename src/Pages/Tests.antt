-- ===== src/Pages/Tests.antt =====
-- Runs of the theorems. The free list has two nodes, and the second one has room.
use libhermit.Base.{
  ◌*◌, ℕ, refl, inl, inr, true, List, ℕ, ◌+◌, ◌^◌, ◌≡◌, none, some, [], ◌∷◌, arith, ◌==◌,
  if◌then◌else◌,
}
use libhermit.Pages.Defs.{Memory, get_pages}
use libhermit.Pages.Defs.{done, put_pages}
use libhermit.Pages.Put.{put_pages-get_pages}
use libhermit.Pages.Repeat.{interleave, AllHold, put_pages-repeats}
use libhermit.Pages.Boot.{Region, Layout, Grant, add_regions}
use libhermit.Pages.Extend.{Shrunk}
use libhermit.Pages.Regions.{IsLow, AllSafe}
use libhermit.Pages.Free.{add_regions-IsFreeList}
use libhermit.Pages.Fit.{IsFreeList}

abbrev two : Memory
two = record {
  nodes = λ a.
      if a == 0
      then record { start = 4096; stop = 8192 }
      else record { start = 65536; stop = 131072 };
  links = record {
    next = λ a. if a == 0 then some 1 else none;
    prev = λ a. if a == 1 then some 0 else none;
  };
  free_start = some 0;
  freed = [];
  total_allocated_pages = 0;
  total_available_pages = 17;
}

-- The head has room.
abbrev wide : Memory
wide = record two { free_start = some 1 }

two-IsFreeList : IsFreeList two (some 0) (0 ∷ 1 ∷ [])
two-IsFreeList = ground arith

put_pages-get_pages_example :
    (m1 : Memory) × (get_pages 2 3 wide ≡ some (65536, m1))
    × (put_pages 2 65536 3 [] m1 ≡ some (done, wide))
put_pages-get_pages_example =
    put_pages-get_pages wide 1 3 1 [] (omega arith) (omega arith) refl (omega arith) (omega arith)
      (omega arith) (omega arith) (omega arith) (omega arith)

put_pages-repeats_example :
    (m' : Memory) × (put_pages 5 262144 1 (7 ∷ 8 ∷ []) two ≡ some (done, m'))
    × IsFreeList m' m'.free_start (interleave (0 ∷ 1 ∷ []) (7 ∷ 8 ∷ []))
    × AllHold m' 262144 (262144 + 1 * 4096) (7 ∷ 8 ∷ [])
put_pages-repeats_example =
    put_pages-repeats 262144 1 (omega arith) (omega arith) 5 two 0 (1 ∷ []) (7 ∷ 8 ∷ [])
      two-IsFreeList (omega arith, (omega arith, tt)) refl (ground arith) (omega arith)

-- The kernel has 1 MiB from 2 MiB on.
abbrev layout : Layout
layout = record {
  base = 2 ^ 21;
  image_size = 2 ^ 20;
  kernel_start = 2 ^ 21;
  mb_info = 65536;
  cmdline = none;
}

abbrev map : List Region
map =
    record { addr = 0; len = 2 ^ 24; available = true }
    ∷ record { addr = 2 ^ 25; len = 2 ^ 24; available = true }
    ∷ []

abbrev booted : Memory
booted = record {
  nodes = λ a. record { start = 2 ^ 22; stop = 2 ^ 24 };
  links = record { next = λ a. none; prev = λ a. none };
  free_start = some 0;
  freed = [];
  total_allocated_pages = 0;
  total_available_pages = 8192;
}

layout-IsLow : IsLow layout
layout-IsLow = record { base_low = omega arith; info_low = omega arith; cmdline_low = omega arith }

-- The first call of `kmalloc` takes 16 pages and then one for a table, the second one none.
abbrev grants : List Grant
grants = record { node = 5; sizes = 16 ∷ 1 ∷ [] } ∷ record { node = 6; sizes = [] } ∷ []

add_regions-IsFreeList_example :
    (m' : Memory) × (used : List ℕ) × (add_regions 1 layout grants 0 map booted ≡ some m')
    × IsFreeList m' m'.free_start (0 ∷ used)
    × AllSafe layout m' used
    × Shrunk (record { start = 2 ^ 22; stop = 2 ^ 24 }) (m'.nodes 0) 17
add_regions-IsFreeList_example =
    add_regions-IsFreeList 0 layout grants map booted layout-IsLow
      (inl (omega arith, omega arith), (inr (inr (omega arith)), tt)) (omega arith) (ground arith)
      ((omega arith, (omega arith, tt)), (tt, tt))
      (record {
        head = refl;
        above = omega arith;
        room = omega arith;
        low = omega arith;
        available = omega arith;
        in_range = omega arith;
      })
      (ground arith)
