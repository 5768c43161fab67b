-- ===== src/Malloc/Tests.antt =====
-- A run of the theorem on the areas and the free list of the other tests.
use libhermit.Base.{
  ℕ, ◌+◌, ◌≡◌, refl, true, false, ◌-◌, none, some, List, [], ◌∷◌, arith, ◌⊎◌, update,
}
use libhermit.Vma.{page_ceil}
use libhermit.Vma.Areas.{IsValid}
use libhermit.Vma.Alloc.{Reserved}
use libhermit.Pages.{Memory, get_pages, take_pages}
use libhermit.Malloc.Defs.{Mm, PageMap, palloc}
use libhermit.Malloc.Reserve.{palloc-Reserved}

abbrev memory : ℕ → ℕ → ℕ → Memory
memory start taken left = record {
  nodes = λ a. record { start = start; stop = 131072 };
  links = record { next = λ a. none; prev = λ a. none };
  free_start = some 0;
  freed = [];
  total_allocated_pages = taken;
  total_available_pages = left;
}

abbrev mm : Mm
mm = record {
  vmas = record {
    areas = λ a. record { start = 786432; stop = 786432; flags = 11 };
    links = record { next = λ a. none; prev = λ a. none };
    list = some 0;
  };
  memory = memory 65536 0 16;
}

mm-IsValid : IsValid mm.vmas (0 ∷ [])
mm-IsValid = record { path = (refl, refl); distinct = ground arith; fits = ground arith }

-- The first two pages are taken.
abbrev after : Memory
after = record mm.memory {
  nodes = update mm.memory.nodes 0 (record { start = 73728; stop = 131072 });
  total_allocated_pages = 2;
  total_available_pages = 14;
}

-- Mapping takes one more page, for a table.
abbrev mapping : PageMap
mapping v p n b m = (false, record m { total_available_pages = m.total_available_pages - 1 })

palloc-Reserved_example :
    (palloc 3 5000 3 mapping true (some 1) none [] mm ≡ some (0, mm))
    ⊎ ((start : ℕ) × (mm' : Mm) × (ids' : List ℕ) × (palloc 3 5000 3 mapping true
            (some 1)
            none
            []
            mm
          ≡ some (start, mm'))
        × IsValid mm'.vmas ids'
        × Reserved mm.vmas mm'.vmas (0 ∷ []) ids' start (start + page_ceil 5000)
        × (mm'.memory ≡ record after { total_available_pages = 13 }))
unfolding get_pages take_pages
palloc-Reserved_example =
    palloc-Reserved mm-IsValid 3 5000 3 mapping true (some 1) none [] refl (omega arith)
      (omega arith) 65536 after refl refl (λ a. refl)
