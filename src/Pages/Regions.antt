-- ===== src/Pages/Regions.antt =====
-- What is free in a region of the memory map.
use libhermit.Base.{
  ℕ, ◌+◌, ◌%◌, ◌^◌, ◌≤◌, ◌<◌, ◌⊎◌, Bool, true, false, none, some, List, [], ◌∷◌, arith, leb, ltb,
  ◌≡◌, ◌&&◌, if◌then◌else◌,
}
use libhermit.Vma.{page_ceil, page_2m_ceil}
use libhermit.Pages.Defs.{Node, Memory}
use libhermit.Pages.Boot.{
  Region, Layout, gap_below, region_start, region_end, below_kernel, above_gap, above_info,
  above_cmdline, free_start_of,
}

-- The end of the last large page of the kernel.
abbrev pub kernel_end : Layout → ℕ
kernel_end e = page_2m_ceil ((e.base + e.image_size) % 2 ^ 64)

abbrev pub cmdline_end : Layout → ℕ
cmdline_end e = elim e.cmdline [ none ↦ 0 | some (cmdline, size) ↦ (cmdline + size) % 2 ^ 64 ]

-- The addresses of the layout are in the lower half of the address space.
pub record IsLow (e : Layout) : Type 0 where
  pub base_low : e.base < 2 ^ 63
  pub info_low : e.mb_info + 4096 < 2 ^ 63
  pub cmdline_low : cmdline_end e + 4096 < 2 ^ 63

-- Each region that is available holds the whole kernel, or nothing of it.
abbrev pub IsApart : Layout → List Region → Type 0
IsApart e [] = Unit
IsApart e (r ∷ rs) =
    (((region_start r ≤ e.base) × (kernel_end e ≤ region_end r))
      ⊎ ((region_end r ≤ e.base) ⊎ (kernel_end e ≤ region_start r)))
    × IsApart e rs

-- A free range that holds pages but nothing of the first megabyte, of the command line, nor of the
-- kernel, and of the boot information nothing below the first page boundary from its start on.
pub record IsSafe (e : Layout) (n : Node) : Type 0 where
  pub some_room : n.start < n.stop
  pub above_gap_below : gap_below ≤ n.start
  pub above_mb_info : page_ceil e.mb_info ≤ n.start
  pub above_cmd : cmdline_end e ≤ n.start
  pub no_kernel : (n.stop ≤ e.base) ⊎ (kernel_end e ≤ n.start)

abbrev pub AllSafe : Layout → Memory → List ℕ → Type 0
AllSafe e m [] = Unit
AllSafe e m (x ∷ xs) = IsSafe e (m.nodes x) × AllSafe e m xs

page_ceil-ge : (x : ℕ) → x + 4096 < 2 ^ 63 → x ≤ page_ceil x
page_ceil-ge x h = omega arith

above_cmdline-ge :
    (e : Layout) (start : ℕ)
    → cmdline_end e + 4096 < 2 ^ 63
    → (start ≤ above_cmdline e start) × (cmdline_end e ≤ above_cmdline e start)
above_cmdline-ge e start h = ground (arith, page_ceil-ge (cmdline_end e) h)

-- The first page boundary from `x` on is at most any other one.
page_ceil-least : (x y : ℕ) → y % 4096 ≡ 0 → x ≤ y → page_ceil x ≤ y
page_ceil-least x y page h = omega arith

above_info-ge :
    (e : Layout) (start : ℕ)
    → e.mb_info + 4096 < 2 ^ 63
    → start % 4096 ≡ 0
    → (start ≤ above_info e start) × (page_ceil e.mb_info ≤ above_info e start)
above_info-ge e start h page =
    ground (arith, page_ceil-ge e.mb_info h, page_ceil-least e.mb_info start page)

above_gap-page : (addr : ℕ) → above_gap (page_ceil addr) % 4096 ≡ 0
above_gap-page addr = page_either (ltb (page_ceil addr) gap_below)
  where
    page_either : (b : Bool) → (if b then gap_below else page_ceil addr) % 4096 ≡ 0
    page_either true = omega arith
    page_either false = omega arith

above_gap-ge : (start : ℕ) → (start ≤ above_gap start) × (gap_below ≤ above_gap start)
above_gap-ge start = ground arith

cut_off :
    (start stop base ke free : ℕ)
    → ((start ≤ base) × (ke ≤ stop)) ⊎ ((stop ≤ base) ⊎ (ke ≤ start))
    → start ≤ free
    → ((if leb start base && leb ke stop then base else stop) ≤ base) ⊎ (ke ≤ free)
cut_off start stop base ke free apart h = ground arith

pub region-IsSafe :
    (e : Layout) (r : Region) (rs : List Region)
    → IsLow e
    → IsApart e (r ∷ rs)
    → free_start_of e r < below_kernel e r
    → IsSafe e (record { start = free_start_of e r; stop = below_kernel e r })
region-IsSafe e r rs low apart room =
    let g = above_gap-ge (region_start r) in
    let i = above_info-ge e (above_gap (region_start r)) low.info_low (above_gap-page r.addr) in
    let c = above_cmdline-ge e (above_info e (above_gap (region_start r))) low.cmdline_low in
    record {
      some_room = room;
      above_gap_below = omega (arith, g, i, c);
      above_mb_info = omega (arith, i, c);
      above_cmd = c.1;
      no_kernel =
          cut_off (region_start r) (region_end r) e.base (kernel_end e) (free_start_of e r) apart.0
            (omega (arith, g, i, c));
    }

pub below_kernel-lt : (e : Layout) (r : Region) → e.base < 2 ^ 63 → below_kernel e r < 2 ^ 64
below_kernel-lt e r h =
    small (leb (region_start r) e.base && leb (kernel_end e) (region_end r)) (region_end r)
      (omega arith)
  where
    small : (b : Bool) (x : ℕ) → x < 2 ^ 63 → (if b then e.base else x) < 2 ^ 64
    small true x l = omega (arith, h)
    small false x l = omega (arith, l)
