-- ===== src/PageTables/Mapped.antt =====
-- What `__page_map` maps, and what it leaves.
use Prim.Native.Nat.{bit_or}
use libhermit.Base.{
  ℕ, zero, suc, ◌+◌, ◌-◌, ◌*◌, ◌/◌, ◌%◌, ◌^◌, ◌≤◌, ◌<◌, ◌≡◌, refl, sym, ap, ap₂, ◌∙◌, subst, Bool,
  true, false, List, arith, ◌==◌, length, ◌⊎◌,
}
use libhermit.PageTables.Bits.{bit_or-odd, bit_or-low}
use libhermit.PageTables.Defs.{
  Tables, present, page_bits, page_mask, page_off, map_level, first_at, count_at, fill_levels,
  page_map, check_levels, check_pagetables, in_kernel, virt_to_phys,
}
use libhermit.PageTables.Levels.{entries, Ready, fill_levels-Ready}
use libhermit.PageTables.Fill.{Same, Same-check, Usable}
use libhermit.PageTables.Entry.{
  map_level-other, map_level-at, page_mask-entry, virt-out, present-check,
}

module _ (viraddr phyaddr npages bits : ℕ) (frames : List ℕ) (t : Tables)
    (lower : viraddr / 4096 + npages ≤ 2 ^ 35) where
  -- The loop on the level 0, behind the others.
  abbrev finish : Bool × Tables → Bool × Tables
  finish r = elim r.0 [
    | true ↦ (
      true,
      map_level (count_at (viraddr / 4096) npages 0) (first_at (viraddr / 4096) 0) phyaddr bits r.1,
    )
    | false ↦ (false, r.1)
  ]

  ready :
      Ready 3 (viraddr / 4096) npages frames t (fill_levels 3 (viraddr / 4096) npages bits frames t)
  ready = fill_levels-Ready (viraddr / 4096) npages bits (omega arith) 3 frames t (omega arith)

  pages_lem : 0 < npages → count_at (viraddr / 4096) npages 0 ≡ npages
  pages_lem b = ground arith

  -- For at least one page, in the lower half: whether `__page_map` fails or not, a page outside of
  -- the range that was mapped is still mapped, to the same address and with the same flags.
  pub page_map-keeps :
      (w : ℕ)
      → 0 < npages
      → check_levels 4 w t ≡ true
      → (w < viraddr / 4096) ⊎ (viraddr / 4096 + npages ≤ w)
      → let t' = (page_map viraddr phyaddr npages bits frames t).1 in
        (check_levels 4 w t' ≡ true) × (t' 0 w ≡ t 0 w)
  unfolding page_map
  page_map-keeps w b c o = kept (fill_levels 3 (viraddr / 4096) npages bits frames t) ready
    where
      same : (t' : Tables) → Same w t t' → (check_levels 4 w t' ≡ true) × (t' 0 w ≡ t 0 w)
      same t' h =
          let whole : w / 2 ^ (0 * 9) ≡ w = omega arith in
          (Same-check w t t' h ∙ c, subst (λ x. t' 0 x ≡ t 0 x) whole (h 0 (omega arith)))

      outside :
          (w / 2 ^ (0 * 9) < first_at (viraddr / 4096) 0)
          ⊎ (first_at (viraddr / 4096) 0 + count_at (viraddr / 4096) npages 0 ≤ w / 2 ^ (0 * 9))
      outside = ground (arith, pages_lem b)

      kept :
          (r : Bool × Tables)
          → Ready 3 (viraddr / 4096) npages frames t r
          → (check_levels 4 w (finish r).1 ≡ true) × ((finish r).1 0 w ≡ t 0 w)
      kept (false, t') (hi, walks, there, enough) = same t' (walks w c)
      kept (true, t') (hi, walks, there, enough) = same (finish (true, t')).1 (λ l u.
          map_level-other (count_at (viraddr / 4096) npages 0) (first_at (viraddr / 4096) 0) phyaddr
            bits t' l (w / 2 ^ (l * 9))
            (λ z.
              subst
                (λ l.
                  (w / 2 ^ (l * 9) < first_at (viraddr / 4096) 0)
                  ⊎ (first_at (viraddr / 4096) 0 + count_at (viraddr / 4096) npages 0
                      ≤ w / 2 ^ (l * 9)))
                (sym z) outside)
          ∙ walks w c l u)

  -- The level 0 refers to the pages in turn.
  level_zero :
      (t' : Tables) (k : ℕ)
      → 0 < npages
      → k < npages
      → phyaddr + npages * 4096 ≤ 2 ^ 52
      → (finish (true, t')).1 0 (viraddr / 4096 + k)
        ≡ bit_or (bit_or (phyaddr + k * 4096) bits) page_bits
  level_zero t' k b l room =
      let vpn = viraddr / 4096 in
      let whole : first_at vpn 0 ≡ vpn = omega arith in
      ap (λ c. map_level c (first_at vpn 0) phyaddr bits t' 0 (vpn + k)) (pages_lem b)
      ∙ ap (λ f. map_level npages f phyaddr bits t' 0 (vpn + k)) whole
      ∙ map_level-at npages vpn phyaddr bits t' k l room

  page_mapped :
      (t' : Tables)
      → 0 < npages
      → phyaddr % 4096 ≡ 0
      → phyaddr + npages * 4096 ≤ 2 ^ 52
      → bits < 2 ^ 64
      → bits % 2 ^ 63 < 4096
      → ((l k : ℕ)
          → 0 < l
          → l ≤ 3
          → k < npages
          → present (t' l ((viraddr / 4096 + k) / 2 ^ (l * 9))) ≡ true)
      → (addr kernel_start image_size : ℕ) → viraddr / 4096 ≤ addr / 4096
      → addr / 4096 < viraddr / 4096 + npages
      → in_kernel kernel_start image_size addr ≡ false
      → (check_pagetables addr (finish (true, t')).1 ≡ true)
        × (virt_to_phys kernel_start image_size addr (finish (true, t')).1
            ≡ phyaddr + (addr - viraddr / 4096 * 4096))
  page_mapped t' b aligned room word flags there addr ks size lo up out =
      let frame = (phyaddr + k * 4096) / 4096 in
      let base : phyaddr + k * 4096 ≡ frame * 2 ^ 12 = omega arith in
      let off : page_off addr ≡ addr % 4096 = omega (arith, lower) in
      (
        present-check w table (λ l u. there_at l u),
        virt-out ks size addr table out
            ∙ ap (λ e. bit_or (page_mask e) (page_off addr)) entry
            ∙ ap (λ m. bit_or m (page_off addr))
                (page_mask-entry (phyaddr + k * 4096) bits (omega arith) (omega arith) word flags)
            ∙ ap₂ bit_or base off
            ∙ bit_or-low 12 frame (addr % 4096) (omega arith)
            ∙ omega (arith, base),
      )
    where
      w : ℕ
      w = addr / 4096

      k : ℕ
      k = addr / 4096 - viraddr / 4096

      table : Tables
      table = (finish (true, t')).1

      at : viraddr / 4096 + k ≡ w
      at = omega arith

      entry : table 0 w ≡ bit_or (bit_or (phyaddr + k * 4096) bits) page_bits
      entry = ap (table 0) (sym at) ∙ level_zero t' k b (omega arith) room

      there_at : (l : ℕ) → l < 4 → present (table l (w / 2 ^ (l * 9))) ≡ true
      there_at zero u =
          let whole : w / 2 ^ (0 * 9) ≡ w = omega arith in
          ap (λ x. present (table 0 x)) whole
          ∙ ap present entry
          ∙ ap (λ n. n == 1) (bit_or-odd (bit_or (phyaddr + k * 4096) bits) page_bits refl)
      there_at (suc l) u =
          ap present (
            map_level-other (count_at (viraddr / 4096) npages 0) (first_at (viraddr / 4096) 0)
              phyaddr bits t' (suc l) (w / 2 ^ (suc l * 9)) (λ z. absurd (omega arith)))
          ∙ ap (λ x. present (t' (suc l) (x / 2 ^ (suc l * 9)))) (sym at)
          ∙ there (suc l) k (omega arith) (omega arith) (omega arith)

  -- For at least one page, in the lower half, to an aligned range below 2 ^ 52, with flags in the
  -- lower 12 bits and bit 63: `__page_map` does not fail if `get_pages` has a frame for every entry
  -- that it visits on the upper levels. If it does not fail, every address of the pages of the
  -- range has entries on all levels, and outside of the kernel `virt_to_phys` gives the address at
  -- the same distance from `phyaddr`.
  pub page_map-maps :
      0 < npages
      → phyaddr % 4096 ≡ 0
      → phyaddr + npages * 4096 ≤ 2 ^ 52
      → bits < 2 ^ 64
      → bits % 2 ^ 63 < 4096
      → let r = page_map viraddr phyaddr npages bits frames t in
        (Usable frames → entries (viraddr / 4096) npages 3 ≤ length frames → r.0 ≡ true)
        × ((addr kernel_start image_size : ℕ)
            → r.0 ≡ true
            → viraddr / 4096 ≤ addr / 4096
            → addr / 4096 < viraddr / 4096 + npages
            → in_kernel kernel_start image_size addr ≡ false
            → (check_pagetables addr r.1 ≡ true)
              × (virt_to_phys kernel_start image_size addr r.1
                  ≡ phyaddr + (addr - viraddr / 4096 * 4096)))
  unfolding page_map
  page_map-maps b aligned room word flags =
      mapped (fill_levels 3 (viraddr / 4096) npages bits frames t) ready
    where
      vpn : ℕ
      vpn = viraddr / 4096

      mapped :
          (r : Bool × Tables)
          → Ready 3 vpn npages frames t r
          → (Usable frames → entries vpn npages 3 ≤ length frames → (finish r).0 ≡ true)
            × ((addr kernel_start image_size : ℕ)
                → (finish r).0 ≡ true
                → vpn ≤ addr / 4096
                → addr / 4096 < vpn + npages
                → in_kernel kernel_start image_size addr ≡ false
                → (check_pagetables addr (finish r).1 ≡ true)
                  × (virt_to_phys kernel_start image_size addr (finish r).1
                      ≡ phyaddr + (addr - vpn * 4096)))
      mapped (false, t') (hi, walks, there, enough) =
          (λ v l. absurd (ground (arith, enough v l)), λ addr ks size d. absurd (ground arith))
      mapped (true, t') (hi, walks, there, enough) = (
        λ v l. refl,
        λ addr ks size d lo up out.
            page_mapped t' b aligned room word flags (λ l k. there refl l k) addr ks size lo up out,
      )
