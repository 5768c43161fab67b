-- ===== src/Pages/Fit.antt =====
-- What `get_pages` hands out lies in one node of the free list.
use libhermit.Base.{
  ℕ, ◌+◌, ◌-◌, ◌*◌, ◌%◌, ◌^◌, ◌≤◌, ◌<◌, ◌≡◌, false, Option, none, some, List, [], ◌∷◌, arith, ap,
  ◌∙◌, ltb, ◌==◌, if◌then◌else◌, update, ◌⊎◌, is_some,
}
use libhermit.Pages.Defs.{Memory, node_pages, take_pages, get_pages, count_taken}

-- From `p` on, the free list holds the nodes `ids`, and no range of a node is turned round.
abbrev pub IsFreeList : Memory → Option ℕ → List ℕ → Type 0
IsFreeList m p [] = p ≡ none
IsFreeList m p (x ∷ xs) =
    (p ≡ some x)
    × ((m.nodes x).start ≤ (m.nodes x).stop)
    × ((m.nodes x).stop < 2 ^ 64)
    × IsFreeList m (m.links.next x) xs

-- The pages lie in the node `x`, and no earlier node has as many.
abbrev pub FirstFit : Memory → ℕ → List ℕ → ℕ → Type 0
FirstFit m npages [] x = ⊥
FirstFit m npages (y ∷ ys) x =
    ((x ≡ y) × ((m.nodes y).start + npages * 4096 ≤ (m.nodes y).stop))
    ⊎ (((m.nodes y).stop < (m.nodes y).start + npages * 4096) × FirstFit m npages ys x)

-- No node has as many pages.
abbrev pub NoFit : Memory → ℕ → List ℕ → Type 0
NoFit m npages [] = Unit
NoFit m npages (y ∷ ys) = ((m.nodes y).stop < (m.nodes y).start + npages * 4096) × NoFit m npages ys

-- The node `x` with its first pages taken off: what is left of it stays in the list, and all else
-- is as before. If nothing is left, a node without `prev` is taken off the head of the list; one
-- behind the head stays in the list as it is, since the node in front of it still points to it.
-- A node without pages is passed to `kfree` unless it is `init_list`, node 0.
abbrev pub Left : Memory → ℕ → ℕ → Memory → Type 0
Left m npages x m' =
    ((npages < node_pages (m.nodes x))
      × (m'.nodes
          ≡ update m.nodes x (record (m.nodes x) { start = (m.nodes x).start + npages * 4096 }))
      × (m'.links ≡ m.links)
      × (m'.free_start ≡ m.free_start)
      × (m'.freed ≡ m.freed))
    ⊎ ((node_pages (m.nodes x) ≡ npages)
        × (m'.nodes ≡ m.nodes)
        × (m'.links.next ≡ m.links.next)
        × (m'.free_start ≡ (if is_some (m.links.prev x) then m.free_start else m.links.next x))
        × (m'.freed ≡ (if x == 0 then m.freed else x ∷ m.freed)))

-- What the loop has come to.
abbrev pub Taken : Memory → ℕ → List ℕ → Option (ℕ × Memory) → Type 0
Taken m npages ids r =
    ((r ≡ some (0, m)) × NoFit m npages ids)
    ⊎ ((x : ℕ) × (m' : Memory) × (r ≡ some ((m.nodes x).start, m'))
        × FirstFit m npages ids x
        × Left m npages x m'
        × (m'.total_available_pages ≡ m.total_available_pages)
        × (m'.total_allocated_pages ≡ m.total_allocated_pages))

abbrev pub counted : ℕ → Memory → Memory
counted npages m = record m {
  total_allocated_pages = (m.total_allocated_pages + npages) % 2 ^ 64;
  total_available_pages = (m.total_available_pages + 2 ^ 64 - npages) % 2 ^ 64;
}

-- The result of `get_pages` from that of its loop.
abbrev pub answer : ℕ → Option (ℕ × Memory) → Option (ℕ × Memory)
answer npages r = elim r [ none ↦ none | some (ret, m') ↦ some (count_taken npages ret m') ]

module _ (m : Memory) (npages fuel : ℕ) (some_pages : 0 < npages)
    (available : npages ≤ m.total_available_pages) where
  pub get_pages-eq : get_pages fuel npages m ≡ answer npages (take_pages fuel npages m.free_start m)
  unfolding get_pages
  get_pages-eq =
      let first : (npages == 0) ≡ false = ground arith in
      let second : ltb m.total_available_pages npages ≡ false = ground arith in
      ap
        (λ b.
          if b
          then some (0, m)
          else if ltb m.total_available_pages npages
          then some (0, m)
          else answer npages (take_pages fuel npages m.free_start m))
        first
      ∙ ap (λ b. if b then some (0, m) else answer npages (take_pages fuel npages m.free_start m))
          second
