-- ===== src/Pages/Free.antt =====
-- The free list that `memory_init` builds.
use libhermit.Base.{
  ℕ, suc, ◌≤◌, ◌<◌, ◌≡◌, inl, inr, refl, sym, subst, ap, ◌∙◌, true, false, Option, none, some, List,
  [], ◌∷◌, arith, ltb, ltb→lt, ◌==◌, ◌&&◌, length, mem, IsDistinct, Bool-cases, ==_iff,
}
use libhermit.Pages.Defs.{Node, Memory}
use libhermit.Pages.Fit.{IsFreeList}
use libhermit.Pages.Boot.{
  Region, Layout, Grant, below_kernel, free_start_of, append_node, add_regions,
}
use libhermit.Pages.Allocate.{IsReady, Grown-IsReady, allocate-Grown, sum, weaken}
use libhermit.Pages.Regions.{IsLow, IsApart, AllSafe, region-IsSafe, below_kernel-lt}
use libhermit.Pages.Extend.{
  nodes_of, pages_of, AllAsk, Shrunk, IsOrdered, Adds, behind, turn-eq, and_right, append-here,
  append-end, append-IsReady, cons-Added,
}

module _ (fuel : ℕ) (e : Layout) (low : IsLow e) where
  -- The memory map has entries for at most as many free regions as there are new nodes; these are
  -- distinct, and not in the list. The list ends at `last`.
  add_regions-Adds :
      (news : List Grant) (last : ℕ) (rs : List Region) (m : Memory)
      → IsApart e rs
      → length rs ≤ length news
      → IsDistinct (last ∷ nodes_of news)
      → mem 0 (nodes_of news) ≡ false
      → AllAsk news
      → IsReady m (pages_of news)
      → IsOrdered (m.nodes last)
      → m.links.next last ≡ none
      → Adds fuel e low news last rs m
  unfolding add_regions
  add_regions-Adds news last [] m apart l d u asks w o z = (
    m,
    [],
    refl,
    record {
      list = (refl, o.0, o.1, z);
      safe = tt;
      same_nodes = λ a h k. refl;
      same_links = λ a h. refl;
      first = record { from = omega arith; upto = omega arith; stop = refl };
      head = refl;
    },
  )
  add_regions-Adds [] last (r ∷ rs) m apart l d u asks w o z = absurd (omega (arith, l))
  add_regions-Adds (g ∷ gs) last (r ∷ rs) m apart l d u asks w o z =
      let start : ℕ = free_start_of e r in
      let stop : ℕ = below_kernel e r in
      elim (Bool-cases (r.available && ltb start stop)) [
        | inl t ↦
            let room : start < stop =
              ltb→lt start stop (and_right r.available (ltb start stop) t) in
            let (m1, asked, grown) =
              allocate-Grown fuel g.sizes m asks.0 (weaken m (sum g.sizes) (pages_of gs) w) in
            let m2 : Memory = append_node g.node last start stop m1 in
            let new : (g.node == 0) ≡ false = ground (arith, u) in
            let (m', used, q, rest) =
              add_regions-Adds gs g.node rs m2 apart.1 (omega (arith, l)) d.1 (ground (arith, u))
                asks.1
                (append-IsReady m1 g.node last start stop (pages_of gs) new
                  (Grown-IsReady m m1 (sum g.sizes) (pages_of gs) grown w))
                (subst (λ (x : Node). IsOrdered x) (sym (append-here m1 g.node last start stop))
                  (omega (arith, room), below_kernel-lt e r low.base_low))
                (append-end m1 g.node last start stop) in
            (
              m',
              g.node ∷ used,
              turn-eq fuel e low (g ∷ gs) last r rs m true t
                  ∙ ap (behind fuel e low last g gs r rs) asked
                  ∙ q,
              cons-Added fuel e low m m1 m' last g.node start stop (sum g.sizes) (pages_of gs)
                  (nodes_of gs) used grown w new d.0 o rest (ground (arith, new, ==_iff 0 g.node))
                  d.1.0 (region-IsSafe e r rs low apart room),
            )
        | inr f ↦
            let (m', used, q, rest) =
              add_regions-Adds (g ∷ gs) last rs m apart.1 (omega (arith, l)) d u asks w o z in
            (m', used, turn-eq fuel e low (g ∷ gs) last r rs m false f ∙ q, rest)
      ]

-- For a layout in the lower half of the address space, and a memory map whose regions each hold the
-- whole kernel or nothing of it; the free list is `init_list` alone, with more pages than the calls
-- of `kmalloc` take and as many available; `kmalloc` yields as many distinct new nodes as the map
-- has entries. Then, with some fuel for each call of `get_pages`, the second loop of `memory_init`
-- ends, and the free list is well formed: `init_list`, which has lost at most these pages at its
-- start, and behind it free ranges that hold nothing of the first megabyte, of the command line and
-- of the kernel, and of the boot information nothing below the first page boundary from its start
-- on. (If the boot information starts at a page boundary, that is nothing at all.)
pub add_regions-IsFreeList :
    (fuel : ℕ) (e : Layout) (news : List Grant) (rs : List Region) (m : Memory)
    → IsLow e
    → IsApart e rs
    → length rs ≤ length news
    → IsDistinct (0 ∷ nodes_of news)
    → AllAsk news
    → IsReady m (pages_of news)
    → IsFreeList m m.free_start (0 ∷ [])
    → (m' : Memory) × (used : List ℕ) × (add_regions (suc fuel) e news 0 rs m ≡ some m')
      × IsFreeList m' m'.free_start (0 ∷ used)
      × AllSafe e m' used
      × Shrunk (m.nodes 0) (m'.nodes 0) (pages_of news)
add_regions-IsFreeList fuel e news rs m low apart l d asks w v =
    let (m', used, q, added) =
      add_regions-Adds fuel e low news 0 rs m apart l d d.0 asks w (v.1, v.2) v.3 in
    (
      m',
      used,
      q,
      subst (λ (p : Option ℕ). IsFreeList m' p (0 ∷ used)) (sym (added.head ∙ v.0)) added.list,
      added.safe,
      added.first,
    )
