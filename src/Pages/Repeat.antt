-- ===== src/Pages/Repeat.antt =====
-- `put_pages` of pages that lie above all free ones inserts them behind every node.
use libhermit.Base.{
  ℕ, zero, suc, ◌+◌, ◌*◌, ◌%◌, ◌^◌, ◌≤◌, ◌<◌, ◌≡◌, refl, true, false, Option, some, List, [], ◌∷◌,
  arith, ap, subst, sym, ◌∙◌, length, mem, IsDistinct, ==_iff,
}
use libhermit.Pages.Defs.{Memory, done, insert_node, give_pages, put_pages}
use libhermit.Pages.Put.{counted, answered, put_pages-eq}
use libhermit.Pages.Fit.{IsFreeList}

-- A new node behind each node.
abbrev pub interleave : List ℕ → List ℕ → List ℕ
interleave [] ns = []
interleave (x ∷ xs) [] = x ∷ xs
interleave (x ∷ xs) (n ∷ ns) = x ∷ n ∷ interleave xs ns

-- All nodes end below `p`.
abbrev pub AllBelow : Memory → ℕ → List ℕ → Type 0
AllBelow m p [] = Unit
AllBelow m p (x ∷ xs) = ((m.nodes x).stop < p) × AllBelow m p xs

-- All nodes hold this range.
abbrev pub AllHold : Memory → ℕ → ℕ → List ℕ → Type 0
AllHold m a b [] = Unit
AllHold m a b (x ∷ xs) = ((m.nodes x).start ≡ a) × ((m.nodes x).stop ≡ b) × AllHold m a b xs

-- The nodes `xs` and what stands behind them is the same in both.
abbrev IsSame : Memory → Memory → List ℕ → Type 0
IsSame m m' xs =
    (a : ℕ) → mem a xs ≡ true → (m'.nodes a ≡ m.nodes a) × (m'.links.next a ≡ m.links.next a)

module _ (phyaddr npages : ℕ) (positive : 0 < npages)
    (fits : phyaddr + npages * 4096 < 2 ^ 64) where
  abbrev stop : ℕ
  stop = phyaddr + npages * 4096

  stop-eq : (phyaddr + npages * 4096) % 2 ^ 64 ≡ stop
  stop-eq = omega (arith, fits)

  insert-eq :
      (fuel n c : ℕ) (ns : List ℕ) (m : Memory)
      → (m.nodes c).start ≤ (m.nodes c).stop
      → (m.nodes c).stop < phyaddr
      → give_pages (suc fuel) phyaddr npages (n ∷ ns) (some c) m
        ≡ give_pages fuel phyaddr npages ns
            ((insert_node n c phyaddr stop m).links.next c)
            (insert_node n c phyaddr stop m)
  unfolding give_pages
  insert-eq fuel n c ns m h l = ground (arith, stop-eq)

  skip-eq :
      (fuel c : ℕ) (ns : List ℕ) (m : Memory)
      → (m.nodes c).start ≡ phyaddr
      → (m.nodes c).stop ≡ stop
      → give_pages (suc fuel) phyaddr npages ns (some c) m
        ≡ give_pages fuel phyaddr npages ns (m.links.next c) m
  unfolding give_pages
  skip-eq fuel c ns m h l = ground (arith, stop-eq)

  -- What the walk has done to the list `xs` with the new nodes `ns`.
  record Repeated (m m' : Memory) (p : Option ℕ) (xs ns : List ℕ) : Type 0 where
    pub list : IsFreeList m' p (interleave xs ns)
    pub new_nodes : AllHold m' phyaddr stop ns
    pub others :
        (a : ℕ)
        → mem a (interleave xs ns) ≡ false
        → (m'.nodes a ≡ m.nodes a) × (m'.links.next a ≡ m.links.next a)
    pub head : m'.free_start ≡ m.free_start
    pub allocated : m'.total_allocated_pages ≡ m.total_allocated_pages
    pub available : m'.total_available_pages ≡ m.total_available_pages

  mem-interleave : (a : ℕ) (xs ns : List ℕ) → mem a xs ≡ true → mem a (interleave xs ns) ≡ true
  mem-interleave a [] ns h = absurd (ground arith)
  mem-interleave a (x ∷ xs) [] h = h
  mem-interleave a (x ∷ xs) (n ∷ ns) h = ground (arith, mem-interleave a xs ns)

  frame-IsFreeList :
      (m m' : Memory) (p : Option ℕ) (xs : List ℕ)
      → IsSame m m' xs
      → IsFreeList m p xs
      → IsFreeList m' p xs
  frame-IsFreeList m m' p [] s v = v
  frame-IsFreeList m m' p (x ∷ xs) s v = ground (
    arith,
    s x (ground (arith, ==_iff x x)),
    frame-IsFreeList m m' (m.links.next x) xs (λ a h. s a (ground arith)),
  )

  frame-AllBelow :
      (m m' : Memory) (xs : List ℕ)
      → IsSame m m' xs
      → AllBelow m phyaddr xs
      → AllBelow m' phyaddr xs
  frame-AllBelow m m' [] s v = v
  frame-AllBelow m m' (x ∷ xs) s v =
      ground (
        arith,
        s x (ground (arith, ==_iff x x)),
        frame-AllBelow m m' xs (λ a h. s a (ground arith)),
      )

  abbrev inserted : Memory → ℕ → ℕ → Memory
  inserted m x n = insert_node n x phyaddr stop m

  inserted-IsSame :
      (m : Memory) (x n : ℕ) (xs : List ℕ)
      → mem x xs ≡ false
      → mem n xs ≡ false
      → IsSame m (inserted m x n) xs
  inserted-IsSame m x n xs hx hn a h = ground (arith, ==_iff n a, ==_iff x a)

  first_new : (m : Memory) (x n : ℕ) → (inserted m x n).links.next x ≡ some n
  first_new m x n = ground (arith, ==_iff x x)

  first_start : (m : Memory) (x n : ℕ) → ((inserted m x n).nodes n).start ≡ phyaddr
  first_start m x n = ground (arith, ==_iff n n)

  first_stop : (m : Memory) (x n : ℕ) → ((inserted m x n).nodes n).stop ≡ stop
  first_stop m x n = ground (arith, ==_iff n n)

  after_new :
      (m : Memory) (x n : ℕ) (ys : List ℕ)
      → mem x (n ∷ ys) ≡ false
      → (inserted m x n).links.next n ≡ m.links.next x
  after_new m x n ys h = ground (arith, ==_iff n n)

  cons-Repeated :
      (m m' : Memory) (p : Option ℕ) (x n : ℕ) (xs ns : List ℕ)
      → p ≡ some x
      → (m.nodes x).start ≤ (m.nodes x).stop
      → (m.nodes x).stop < 2 ^ 64
      → IsDistinct (interleave (x ∷ xs) (n ∷ ns))
      → Repeated (inserted m x n) m' (m.links.next x) xs ns
      → Repeated m m' p (x ∷ xs) (n ∷ ns)
  cons-Repeated m m' p x n xs ns e h l d w =
      let at_x = w.others x (ground (arith, d)) in
      let at_n = w.others n d.1.0 in
      record {
        list = (
          e,
          ground (arith, at_x, ==_iff n x),
          ground (arith, at_x, ==_iff n x),
          (
            at_x.1 ∙ first_new m x n,
            ground (arith, at_n, ==_iff n n),
            ground (arith, at_n, ==_iff n n, fits),
            subst (λ (q : Option ℕ). IsFreeList m' q (interleave xs ns))
                (sym (at_n.1 ∙ after_new m x n (interleave xs ns) d.0)) w.list,
          ),
        );
        new_nodes =
            (ground (arith, at_n, ==_iff n n), ground (arith, at_n, ==_iff n n), w.new_nodes);
        others = λ a o. ground (arith, w.others a);
        head = w.head;
        allocated = w.allocated;
        available = w.available;
      }

  walk-Repeated :
      (fuel : ℕ) (m : Memory) (p : Option ℕ) (xs ns : List ℕ)
      → IsFreeList m p xs
      → AllBelow m phyaddr xs
      → length ns ≡ length xs
      → IsDistinct (interleave xs ns)
      → length xs + length xs < fuel
      → (m' : Memory) × (give_pages fuel phyaddr npages ns p m ≡ some (true, m'))
        × Repeated m m' p xs ns
  unfolding give_pages
  walk-Repeated zero m p xs ns v b l d e = absurd (omega arith)
  walk-Repeated (suc fuel) m p [] [] v b l d e = (
    m,
    ap (λ q. give_pages (suc fuel) phyaddr npages [] q m) v,
    record {
      list = v;
      new_nodes = tt;
      others = λ a h. (refl, refl);
      head = refl;
      allocated = refl;
      available = refl;
    },
  )
  walk-Repeated (suc fuel) m p [] (n ∷ ns) v b l d e = absurd (omega (arith, l))
  walk-Repeated (suc fuel) m p (x ∷ xs) [] v b l d e = absurd (omega (arith, l))
  walk-Repeated (suc zero) m p (x ∷ xs) (n ∷ ns) v b l d e = absurd (omega (arith, e))
  walk-Repeated (suc (suc fuel)) m p (x ∷ xs) (n ∷ ns) v b l d e =
      let m1 : Memory = inserted m x n in
      let same : IsSame m m1 xs =
        inserted-IsSame m x n xs (ground (arith, mem-interleave x xs ns))
          (ground (arith, mem-interleave n xs ns)) in
      let (m', r, w) =
        walk-Repeated fuel m1 (m.links.next x) xs ns
          (frame-IsFreeList m m1 (m.links.next x) xs same v.3) (frame-AllBelow m m1 xs same b.1)
          (omega (arith, l)) d.1.1 (omega (arith, e)) in
      (
        m',
        ap (λ q. give_pages (suc (suc fuel)) phyaddr npages (n ∷ ns) q m) v.0
            ∙ insert-eq (suc fuel) n x ns m v.1 b.0
            ∙ ap (λ q. give_pages (suc fuel) phyaddr npages ns q m1) (first_new m x n)
            ∙ skip-eq fuel n ns m1 (first_start m x n) (first_stop m x n)
            ∙ ap (λ q. give_pages fuel phyaddr npages ns q m1)
                (after_new m x n (interleave xs ns) d.0)
            ∙ r,
        cons-Repeated m m' p x n xs ns v.0 v.1 v.2 d w,
      )

  counted-AllHold :
      (m : Memory) (ns : List ℕ)
      → AllHold m phyaddr stop ns
      → AllHold (counted npages m) phyaddr stop ns
  counted-AllHold m [] h = h
  counted-AllHold m (n ∷ ns) h = (h.0, h.1, counted-AllHold m ns h.2)

  -- If the pages end below 2^64 and lie above every free node, of which there is one at least, and
  -- `kmalloc` yields as many distinct new nodes, apart from the old ones: with enough fuel
  -- `put_pages` succeeds and has inserted the same pages behind every node of the free list.
  pub put_pages-repeats :
      (fuel : ℕ) (m : Memory) (x : ℕ) (xs ns : List ℕ)
      → IsFreeList m m.free_start (x ∷ xs)
      → AllBelow m phyaddr (x ∷ xs)
      → length ns ≡ length (x ∷ xs)
      → IsDistinct (interleave (x ∷ xs) ns)
      → length (x ∷ xs) + length (x ∷ xs) < fuel
      → (m' : Memory) × (put_pages fuel phyaddr npages ns m ≡ some (done, m'))
        × IsFreeList m' m'.free_start (interleave (x ∷ xs) ns)
        × AllHold m' phyaddr stop ns
  put_pages-repeats fuel m x xs ns v b l d e =
      let (m1, r, w) = walk-Repeated fuel m m.free_start (x ∷ xs) ns v b l d e in
      (
        counted npages m1,
        put_pages-eq npages phyaddr (omega (arith, positive)) fuel ns m (omega (arith, b.0))
            ∙ ap (answered npages m) r,
        subst (λ (q : Option ℕ). IsFreeList (counted npages m1) q (interleave (x ∷ xs) ns))
            (sym w.head)
            (frame-IsFreeList m1 (counted npages m1) m.free_start (interleave (x ∷ xs) ns)
              (λ a h. (refl, refl)) w.list),
        counted-AllHold m1 ns w.new_nodes,
      )
