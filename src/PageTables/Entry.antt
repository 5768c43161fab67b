-- ===== src/PageTables/Entry.antt =====
-- The entries of the level 0, and how `virt_to_phys` and `check_pagetables` read them.
use Prim.Native.Nat.{bit_or}
use libhermit.Base.{
  ℕ, zero, suc, ◌+◌, ◌-◌, ◌*◌, ◌/◌, ◌%◌, ◌^◌, ◌≤◌, ◌<◌, ◌≡◌, refl, sym, ap, ◌∙◌, true, false, arith,
  ltb, ◌==◌, ==-refl, if◌then◌else◌, Bool-cases, inl, inr, ◌⊎◌,
}
use libhermit.PageTables.Bits.{bit_or-page, bit_or-zero, bit_or-high}
use libhermit.PageTables.Defs.{
  Tables, present, page_bits, page_mask, page_off, large_off, without_xd, set_entry, map_level,
  check_levels, in_kernel, virt_to_phys,
}

-- The loop on the level 0.
pub map_level-other :
    (count index phyaddr bits : ℕ) (t : Tables) (l j : ℕ)
    → (l ≡ 0 → (j < index) ⊎ (index + count ≤ j))
    → map_level count index phyaddr bits t l j ≡ t l j
unfolding map_level
map_level-other zero index phyaddr bits t l j h = refl
map_level-other (suc count) index phyaddr bits t l j h =
    map_level-other count (index + 1) ((phyaddr + 4096) % 2 ^ 64) bits _ l j
      (λ z. ground (arith, h z))
    ∙ ground (arith, h)

pub map_level-at :
    (count index phyaddr bits : ℕ) (t : Tables) (k : ℕ)
    → k < count
    → phyaddr + count * 4096 ≤ 2 ^ 52
    → map_level count index phyaddr bits t 0 (index + k)
      ≡ bit_or (bit_or (phyaddr + k * 4096) bits) page_bits
unfolding map_level
map_level-at zero index phyaddr bits t k b c = absurd (omega arith)
map_level-at (suc count) index phyaddr bits t k b c = elim (Bool-cases (k == 0)) [
  | inl z ↦
      let none : k ≡ 0 = ground arith in
      let here : index + k ≡ index = omega arith in
      let same : phyaddr + k * 4096 ≡ phyaddr = omega arith in
      ap
        (map_level count (index + 1) ((phyaddr + 4096) % 2 ^ 64) bits
          (set_entry 0 index (bit_or (bit_or phyaddr bits) page_bits) t) 0)
        here
      ∙ map_level-other count (index + 1) ((phyaddr + 4096) % 2 ^ 64) bits _ 0 index
          (λ e. inl (omega arith))
      ∙ rw (==-refl index) refl
      ∙ ap (λ p. bit_or (bit_or p bits) page_bits) (sym same)
  | inr z ↦
      let here : index + k ≡ index + 1 + (k - 1) = ground arith in
      let wrap : (phyaddr + 4096) % 2 ^ 64 ≡ phyaddr + 4096 = omega arith in
      let same : (phyaddr + 4096) % 2 ^ 64 + (k - 1) * 4096 ≡ phyaddr + k * 4096 =
        ground (arith, wrap) in
      ap
        (map_level count (index + 1) ((phyaddr + 4096) % 2 ^ 64) bits
          (set_entry 0 index (bit_or (bit_or phyaddr bits) page_bits) t) 0)
        here
      ∙ map_level-at count (index + 1) ((phyaddr + 4096) % 2 ^ 64) bits _ (k - 1) (ground arith)
          (omega (arith, wrap))
      ∙ ap (λ p. bit_or (bit_or p bits) page_bits) same
]

-- The address in an entry.
pub page_mask-entry :
    (phyaddr bits : ℕ)
    → phyaddr % 4096 ≡ 0
    → phyaddr < 2 ^ 52
    → bits < 2 ^ 64
    → bits % 2 ^ 63 < 4096
    → page_mask (bit_or (bit_or phyaddr bits) page_bits) ≡ phyaddr
page_mask-entry phyaddr bits a b c d =
    let frame = phyaddr / 4096 in
    let upper : bit_or (bit_or phyaddr bits) page_bits / 4096 ≡ bit_or frame (bits / 4096) =
      bit_or-page (bit_or phyaddr bits) page_bits
      ∙ bit_or-zero (bit_or phyaddr bits / 4096)
      ∙ bit_or-page phyaddr bits in
    elim (Bool-cases (ltb bits 4096)) [
      | inl l ↦
          let none : bits / 4096 ≡ 0 = ground arith in
          omega (arith, upper, ap (bit_or frame) none, bit_or-zero frame)
      | inr l ↦
          let one : bits / 4096 ≡ 2 ^ 51 = ground arith in
          omega (arith, upper, ap (bit_or frame) one, bit_or-high 51 frame (omega arith))
    ]

pub virt-out :
    (kernel_start image_size addr : ℕ) (t : Tables)
    → in_kernel kernel_start image_size addr ≡ false
    → virt_to_phys kernel_start image_size addr t
      ≡ bit_or (page_mask (t 0 (addr / 4096))) (page_off addr)
unfolding virt_to_phys
virt-out kernel_start image_size addr t out =
    ap
      (λ b.
        if b
        then bit_or (without_xd (t 1 (addr / 2 ^ 21) / 2 ^ 21 * 2 ^ 21)) (large_off addr)
        else bit_or (page_mask (t 0 (addr / 4096))) (page_off addr))
      out

pub present-check :
    (w : ℕ) (t : Tables)
    → ((l : ℕ) → l < 4 → present (t l (w / 2 ^ (l * 9))) ≡ true)
    → check_levels 4 w t ≡ true
present-check w t h =
    ground (arith, h 0 (omega arith), h 1 (omega arith), h 2 (omega arith), h 3 (omega arith))
