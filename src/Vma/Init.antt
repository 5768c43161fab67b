-- ===== src/Vma/Init.antt =====
-- mm/vma.c: the list at start-up and `vma_init`; arch/x86_64/mm/vma.c: `vma_arch_init`. `news` are
-- the results of the calls of `kmalloc`, one for each call of `vma_add`; where the list ends, it is
-- NULL.
use libhermit.Base.{
  ℕ, zero, suc, ◌+◌, ◌-◌, ◌*◌, ◌/◌, ◌%◌, ◌^◌, Bool, true, false, Option, none, some, List, [], ◌∷◌,
  ltb, ◌==◌, ◌&&◌, not, if◌then◌else◌,
}
use libhermit.Vma.Defs.{page_floor, page_2m_floor, Vmas, vma_min}
use libhermit.Vma.Update.{Code, ok, einval, enomem, vma_add}

-- VMA_READ|VMA_WRITE|VMA_CACHEABLE, which is VMA_HEAP too
abbrev pub data_flags : ℕ
data_flags = 11

-- VMA_READ|VMA_WRITE|VMA_EXECUTE|VMA_CACHEABLE
abbrev pub kernel_flags : ℕ
kernel_flags = 15

-- VMA_NO_ACCESS
abbrev pub vma_no_access : ℕ
vma_no_access = 16

abbrev pub kernel_end_ceil : ℕ → ℕ
kernel_end_ceil addr = (addr + 2 ^ 21 - 1) % 2 ^ 64 / 2 ^ 21 * 2 ^ 21

abbrev pub heap_start : ℕ → ℕ → ℕ
heap_start kernel_start image_size =
    kernel_end_ceil ((kernel_start + image_size + 16 * 2 ^ 10) % 2 ^ 64)

abbrev pub heap_size : ℕ
heap_size = 2 ^ 32

-- `vma_boot` is the node `boot`.
abbrev pub vma_boot : ℕ → Vmas
vma_boot boot = record {
  areas = λ a. record { start = vma_min; stop = vma_min; flags = data_flags };
  links = record { next = λ a. none; prev = λ a. none };
  list = some boot;
}

abbrev pub head_or_null : List (Option ℕ) → Option ℕ
head_or_null [] = none
head_or_null (x ∷ xs) = x

abbrev pub rest_of : List (Option ℕ) → List (Option ℕ)
rest_of [] = []
rest_of (x ∷ xs) = xs

-- A call of `vma_add`, after which the function goes on if it has succeeded.
abbrev pub add_then :
    ℕ
    → ℕ
    → ℕ
    → ℕ
    → List (Option ℕ)
    → (List (Option ℕ) → Vmas → Option (Code × Vmas))
    → Vmas
    → Option (Code × Vmas)
add_then fuel start end flags news next s =
    elim (vma_add fuel start end flags (head_or_null news) s) [
      | none ↦ none
      | some (ok, s') ↦ next (rest_of news) s'
      | some (einval, s') ↦ some (einval, s')
      | some (enomem, s') ↦ some (enomem, s')
    ]

-- What the boot loader hands over: the address of `mb_info`, whether it has a command line, and
-- where.
pub record Multiboot : Type 0 where
  pub mb_info : ℕ
  pub has_cmdline : Bool
  pub cmdline : ℕ
  pub cmdsize : ℕ

-- The loop over the pages of the command line.
unfoldable pub add_cmdline : ℕ → ℕ → Multiboot → List (Option ℕ) → Vmas → Option (Code × Vmas)
add_cmdline zero i mb news s = none
add_cmdline (suc fuel) i mb news s =
    let page = page_floor ((mb.cmdline + i) % 2 ^ 64) in
    elim (ltb ((mb.cmdline + i) % 2 ^ 64) ((mb.cmdline + mb.cmdsize) % 2 ^ 64)) [
      | false ↦ some (ok, s)
      | true ↦ elim (page == page_floor mb.mb_info) [
        | true ↦ add_cmdline fuel (i + 4096) mb news s
        | false ↦
            add_then fuel page (page + 4096) data_flags news (add_cmdline fuel (i + 4096) mb) s
      ]
    ]

abbrev pub vma_arch_init : ℕ → Multiboot → List (Option ℕ) → Vmas → Option (Code × Vmas)
vma_arch_init fuel mb news s =
    if mb.mb_info == 0
    then some (ok, s)
    else add_then fuel (page_floor mb.mb_info) (page_floor mb.mb_info + 4096) data_flags news
        (λ news s.
          if mb.has_cmdline && not (mb.cmdline == 0)
          then add_cmdline fuel 0 mb news s
          else some (ok, s))
        s

unfoldable pub vma_init : ℕ → ℕ → ℕ → Multiboot → List (Option ℕ) → Vmas → Option (Code × Vmas)
vma_init fuel kernel_start image_size mb news s =
    add_then fuel (page_2m_floor kernel_start)
      (kernel_end_ceil ((kernel_start + image_size) % 2 ^ 64)) kernel_flags news
      (λ news s.
        add_then fuel (heap_start kernel_start image_size)
          ((heap_start kernel_start image_size + heap_size) % 2 ^ 64) vma_no_access news
          (vma_arch_init fuel mb) s)
      s
