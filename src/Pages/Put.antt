-- ===== src/Pages/Put.antt =====
-- `put_pages` right after `get_pages`.
use libhermit.Base.{
  ℕ, suc, ◌+◌, ◌-◌, ◌*◌, ◌%◌, ◌^◌, ◌≤◌, ◌<◌, ◌≡◌, Bool, true, false, Option, none, some, List,
  arith, ap, ap₂, fun_ext, ◌∙◌, ◌==◌, ==_iff, if◌then◌else◌, update,
}
use libhermit.Pages.Defs.{
  Node, Memory, PutCode, done, einval, enomem, node_pages, take_pages, get_pages, count_taken,
  give_pages, put_pages,
}
use libhermit.Pages.Fit.{answer, get_pages-eq}

-- The counters after `npages` pages have been put back.
abbrev pub counted : ℕ → Memory → Memory
counted npages m = record m {
  total_allocated_pages = (m.total_allocated_pages + 2 ^ 64 - npages) % 2 ^ 64;
  total_available_pages = (m.total_available_pages + npages) % 2 ^ 64;
}

-- The result of `put_pages` from that of its loop.
abbrev pub answered : ℕ → Memory → Option (Bool × Memory) → Option (PutCode × Memory)
answered npages m o = elim o [
  | none ↦ none
  | some (false, m') ↦ some (enomem, m')
  | some (true, m') ↦ some (done, counted npages m')
]

module _ (npages phyaddr : ℕ) (positive : 0 < npages) (fuel : ℕ) (ns : List ℕ) (m : Memory)
    (above : 0 < phyaddr) where
  pub put_pages-eq :
      put_pages fuel phyaddr npages ns m
      ≡ answered npages m (give_pages fuel phyaddr npages ns m.free_start m)
  unfolding put_pages
  put_pages-eq =
      let some_address : (phyaddr == 0) ≡ false = ground arith in
      let some_pages : (npages == 0) ≡ false = ground arith in
      let rest : Option (PutCode × Memory) =
        answered npages m (give_pages fuel phyaddr npages ns m.free_start m) in
      ap (λ b. if b then some (einval, m) else if npages == 0 then some (einval, m) else rest)
        some_address
      ∙ ap (λ b. if b then some (einval, m) else rest) some_pages

module _ (m : Memory) (fuel npages h : ℕ) (ns : List ℕ) (some_pages : 0 < npages)
    (available : npages ≤ m.total_available_pages) (head : m.free_start ≡ some h)
    (above : 0 < (m.nodes h).start) (ordered : (m.nodes h).start ≤ (m.nodes h).stop)
    (small : (m.nodes h).stop < 2 ^ 64) (room : npages < node_pages (m.nodes h))
    (allocated_fits : m.total_allocated_pages + npages < 2 ^ 64)
    (available_fits : m.total_available_pages < 2 ^ 64) where
  abbrev start : ℕ
  start = (m.nodes h).start

  abbrev cut : Memory
  cut = record m {
    nodes = update m.nodes h (record (m.nodes h) { start = (start + npages * 4096) % 2 ^ 64 });
  }

  abbrev taken : Memory
  taken = record cut {
    total_allocated_pages = (m.total_allocated_pages + npages) % 2 ^ 64;
    total_available_pages = (m.total_available_pages + 2 ^ 64 - npages) % 2 ^ 64;
  }

  counted-eq : count_taken npages start cut ≡ (start, taken)
  counted-eq =
      let no_null : (start == 0) ≡ false = ground arith in
      ap (λ b. if b then (start, cut) else (start, taken)) no_null

  fits : start + npages * 4096 ≤ (m.nodes h).stop
  fits = omega (arith, room, ordered, small)

  take-eq : take_pages (suc fuel) npages m.free_start m ≡ some (start, cut)
  unfolding take_pages
  take-eq = ap (λ p. take_pages (suc fuel) npages p m) head ∙ ground (arith, room)

  give-eq :
      give_pages (suc fuel) start npages ns taken.free_start taken
      ≡ some (
        true,
        record taken { nodes = update taken.nodes h (record (taken.nodes h) { start = start }) },
      )
  unfolding give_pages
  give-eq =
      ap (λ p. give_pages (suc fuel) start npages ns p taken) head ∙ ground (arith, ==_iff h h)

  abbrev back : Memory
  back = record taken { nodes = update taken.nodes h (record (taken.nodes h) { start = start }) }

  abbrev with_counts : (ℕ → Node) → ℕ → ℕ → Memory
  with_counts nodes a b = record m {
    nodes = nodes;
    total_allocated_pages = a;
    total_available_pages = b;
  }

  nodes-eq : back.nodes ≡ m.nodes
  nodes-eq = fun_ext λ a. ground (arith, ==_iff h a, ==_iff h h)

  back-eq : counted npages back ≡ m
  back-eq =
      ap
        (λ f.
          with_counts f ((taken.total_allocated_pages + 2 ^ 64 - npages) % 2 ^ 64)
            ((taken.total_available_pages + npages) % 2 ^ 64))
        nodes-eq
      ∙ ap₂ (with_counts m.nodes) (omega (arith, allocated_fits))
          (omega (arith, available, available_fits))

  -- If the head of the free list has more pages than are asked for, is not turned round, and does
  -- not start at the address 0, and the counters stay in range: `get_pages` takes the pages from
  -- the head, and putting them back restores the free list and the counters as they were.
  pub put_pages-get_pages :
      (m1 : Memory) × (get_pages (suc fuel) npages m ≡ some (start, m1))
      × (put_pages (suc fuel) start npages ns m1 ≡ some (done, m))
  put_pages-get_pages = (
    taken,
    get_pages-eq m npages (suc fuel) some_pages available
        ∙ ap (answer npages) take-eq
        ∙ ap some counted-eq,
    put_pages-eq npages start some_pages (suc fuel) ns taken above
        ∙ ap (answered npages taken) give-eq
        ∙ ap (λ x. some (done, x)) back-eq,
  )
