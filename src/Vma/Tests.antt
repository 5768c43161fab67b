-- ===== src/Vma/Tests.antt =====
-- Runs of the theorems on a list of two areas, with a third node to be allocated.
use libhermit.Base.{
  ℕ, true, ◌≡◌, refl, false, Option, none, some, [], ◌∷◌, arith, ◌==◌, if◌then◌else◌,
}
use libhermit.Vma.Defs.{Vmas, vma_alloc, page_ceil}
use libhermit.Vma.Update.{Code, ok, vma_free, vma_add, find_room}
use libhermit.Vma.Init.{vma_boot, vma_init}
use libhermit.Vma.Areas.{Backs, Leads, covered, within, IsValid}
use libhermit.Vma.Lost.{vma_free-loses}
use libhermit.Vma.Alloc.{Allocated, vma_alloc-Allocated}
use libhermit.Vma.Add.{Added, vma_add-Added}
use libhermit.Vma.Free.{Freed, vma_free-Freed}

-- Node 0 is the boot area, node 1 the kernel.
abbrev two : Vmas
two = record {
  areas = λ a.
      if a == 0
      then record { start = 786432; stop = 1048576; flags = 11 }
      else record { start = 8388608; stop = 16777216; flags = 15 };
  links = record {
    next = λ a. if a == 0 then some 1 else none;
    prev = λ a. if a == 1 then some 0 else none;
  };
  list = some 0;
}

two-IsValid : IsValid two (0 ∷ 1 ∷ [])
two-IsValid = record { path = (refl, (refl, refl)); distinct = ground arith; fits = ground arith }

vma_alloc-Allocated_example :
    Allocated two (0 ∷ 1 ∷ []) (page_ceil 5000) (vma_alloc 3 5000 3 (some 2) two)
vma_alloc-Allocated_example =
    vma_alloc-Allocated two-IsValid 3 5000 3 (some 2) refl (omega arith) (omega arith)

vma_add-Added_example :
    Added two (0 ∷ 1 ∷ []) 1048576 1052672 (some 3) (vma_add 4 1048576 1052672 3 (some 3) two)
vma_add-Added_example =
    vma_add-Added two-IsValid 4 1048576 1052672 3 (some 3) refl (omega arith) (omega arith)

two-Backs : Backs two.links.prev none (0 ∷ 1 ∷ [])
two-Backs = (refl, (refl, tt))

vma_free-Freed_example :
    Freed two (0 ∷ 1 ∷ []) 790528 794624 (some 2) (vma_free 3 790528 794624 (some 2) two)
vma_free-Freed_example =
    vma_free-Freed two-IsValid two-Backs 3 790528 794624 (some 2) refl (omega arith)

-- A page in the middle of the boot area is freed, and then the kernel.
vma_free-loses_example :
    (s1 s2 : Vmas) × (vma_free 3 790528 794624 (some 2) two ≡ some (ok, none, s1))
    × (vma_free 3 8388608 16777216 none s1 ≡ some (ok, some 1, s2))
    × Leads s2.links.next s2.list (0 ∷ [])
    × ((b : ℕ)
        → within 794624 1048576 b ≡ true
        → (covered two.areas (0 ∷ 1 ∷ []) b ≡ true) × (covered s2.areas (0 ∷ []) b ≡ false))
vma_free-loses_example =
    vma_free-loses [] [] 0 1 two-IsValid two-Backs 2 790528 794624 refl (omega arith) (omega arith)
      (omega arith) (omega arith) 3 (omega arith)

-- Start-up without a boot loader: the kernel and the heap get nodes of their own.
abbrev started : Option (Code × Vmas)
started =
    vma_init 8 8388608 1000000
      (record { mb_info = 0; has_cmdline = false; cmdline = 0; cmdsize = 0 }) (some 1 ∷ some 2 ∷ [])
      (vma_boot 0)

vma_init_run :
    (s : Vmas) × (started ≡ some (ok, s))
    × (s.list ≡ some 0)
    × (s.links.next 0 ≡ some 1)
    × (s.links.next 1 ≡ some 2)
    × ((s.areas 1).start ≡ 8388608)
    × ((s.areas 1).stop ≡ 10485760)
    × ((s.areas 2).start ≡ 10485760)
unfolding vma_init vma_add find_room
vma_init_run = (_, refl, refl, refl, refl, refl, refl, refl)
