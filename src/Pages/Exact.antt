-- ===== src/Pages/Exact.antt =====
-- What `get_pages` does with a node that fits exactly and is not the head of the free list.
use libhermit.Base.{ℕ, suc, ◌≤◌, ◌<◌, ◌≡◌, ◌≢◌, some, ◌∷◌, arith, ap, ◌∙◌}
use libhermit.Pages.Defs.{Memory, node_pages, take_pages, get_pages, drop_node, count_taken}
use libhermit.Pages.Fit.{answer, get_pages-eq}

module _ (m : Memory) (fuel npages h c : ℕ) (some_pages : 0 < npages)
    (available : npages ≤ m.total_available_pages) (head : m.free_start ≡ some h)
    (small : node_pages (m.nodes h) < npages) (next : m.links.next h ≡ some c)
    (prev : m.links.prev c ≡ some h) (exact : node_pages (m.nodes c) ≡ npages) (own : c ≢ 0) where
  skip-eq :
      take_pages (suc (suc fuel)) npages (some h) m
      ≡ take_pages (suc fuel) npages (m.links.next h) m
  unfolding take_pages
  skip-eq = ground (arith, small)

  hit-eq : take_pages (suc fuel) npages (some c) m ≡ some ((m.nodes c).start, drop_node c m)
  unfolding take_pages
  hit-eq = ground (arith, exact)

  loop-eq :
      take_pages (suc (suc fuel)) npages m.free_start m ≡ some ((m.nodes c).start, drop_node c m)
  loop-eq =
      ap (λ p. take_pages (suc (suc fuel)) npages p m) head
      ∙ skip-eq
      ∙ ap (λ p. take_pages (suc fuel) npages p m) next
      ∙ hit-eq

  exact-eq :
      get_pages (suc (suc fuel)) npages m
      ≡ some (count_taken npages (m.nodes c).start (drop_node c m))
  exact-eq =
      get_pages-eq m npages (suc (suc fuel)) some_pages available ∙ ap (answer npages) loop-eq

  -- If the head is too small, and the second node has exactly the number of pages, then `get_pages`
  -- hands out the second node's pages and frees the node, but the head still points to it.
  pub get_pages-dangling :
      (m' : Memory) × (get_pages (suc (suc fuel)) npages m ≡ some ((m.nodes c).start, m'))
      × (m'.free_start ≡ some h)
      × (m'.links.next h ≡ some c)
      × (m'.freed ≡ c ∷ m.freed)
  get_pages-dangling = (
    (count_taken npages (m.nodes c).start (drop_node c m)).1,
    exact-eq ∙ ground arith,
    ground (arith, head, prev),
    ground (arith, next, prev),
    ground (arith, own),
  )
