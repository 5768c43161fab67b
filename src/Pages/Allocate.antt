-- ===== src/Pages/Allocate.antt =====
-- What `kmalloc` takes from the free list while `memory_init` builds it comes from `init_list`.
use libhermit.Base.{
  ℕ, suc, ◌+◌, ◌*◌, ◌%◌, ◌^◌, ◌≤◌, ◌<◌, ◌≡◌, refl, false, Option, none, some, List, [], ◌∷◌, arith,
  ap, ◌∙◌, ◌==◌, if◌then◌else◌, update,
}
use libhermit.Pages.Defs.{Memory, node_pages, take_pages, get_pages, count_taken}
use libhermit.Pages.Fit.{answer, get_pages-eq, counted}
use libhermit.Pages.Boot.{allocate}

abbrev pub sum : List ℕ → ℕ
sum [] = 0
sum (n ∷ ns) = n + sum ns

abbrev pub AllPositive : List ℕ → Type 0
AllPositive [] = Unit
AllPositive (n ∷ ns) = (0 < n) × AllPositive ns

-- `init_list` is the head of the free list and has more than `k` pages, and as many are available.
pub record IsReady (m : Memory) (k : ℕ) : Type 0 where
  pub head : m.free_start ≡ some 0
  pub above : 0 < (m.nodes 0).start
  pub room : (m.nodes 0).start + k * 4096 + 4096 ≤ (m.nodes 0).stop
  pub low : (m.nodes 0).stop < 2 ^ 64
  pub available : k ≤ m.total_available_pages
  pub in_range : m.total_available_pages < 2 ^ 64

-- `init_list` has lost its first `k` pages.
pub record Grown (m m' : Memory) (k : ℕ) : Type 0 where
  pub start : (m'.nodes 0).start ≡ (m.nodes 0).start + k * 4096
  pub stop : (m'.nodes 0).stop ≡ (m.nodes 0).stop
  pub others : (a : ℕ) → (0 == a) ≡ false → m'.nodes a ≡ m.nodes a
  pub links : m'.links ≡ m.links
  pub head : m'.free_start ≡ m.free_start
  pub available : m'.total_available_pages + k ≡ m.total_available_pages

module _ (fuel n : ℕ) (m : Memory) (some_pages : 0 < n) (w : IsReady m n) where
  abbrev cut : Memory
  cut = record m {
    nodes =
        update m.nodes 0 (record (m.nodes 0) { start = ((m.nodes 0).start + n * 4096) % 2 ^ 64 });
  }

  more : n < node_pages (m.nodes 0)
  more = omega (arith, w.room, w.low)

  take-eq : take_pages (suc fuel) n m.free_start m ≡ some ((m.nodes 0).start, cut)
  unfolding take_pages
  take-eq = ap (λ p. take_pages (suc fuel) n p m) w.head ∙ ground (arith, more)

  counted-eq : count_taken n (m.nodes 0).start cut ≡ ((m.nodes 0).start, counted n cut)
  counted-eq =
      let up : ((m.nodes 0).start == 0) ≡ false = ground (arith, w.above) in
      ap (λ b. if b then ((m.nodes 0).start, cut) else ((m.nodes 0).start, counted n cut)) up

  get_pages-first : get_pages (suc fuel) n m ≡ some ((m.nodes 0).start, counted n cut)
  get_pages-first =
      get_pages-eq m n (suc fuel) some_pages w.available
      ∙ ap (answer n) take-eq
      ∙ ap some counted-eq

  cut-Grown : Grown m (counted n cut) n
  cut-Grown = record {
    start = omega (arith, w.room, w.low);
    stop = refl;
    others = λ a h. ap (λ b. if b then (cut.nodes 0) else m.nodes a) h;
    links = refl;
    head = refl;
    available = omega (arith, w.available, w.in_range);
  }

allocate-step :
    (fuel n : ℕ) (ns : List ℕ) (m m' : Memory) (p : ℕ)
    → get_pages fuel n m ≡ some (p, m')
    → (p == 0) ≡ false
    → allocate fuel (n ∷ ns) m ≡ allocate fuel ns m'
unfolding allocate
allocate-step fuel n ns m m' p e up =
    ap rest e ∙ ap (λ b. if b then none else allocate fuel ns m') up
  where
    rest : Option (ℕ × Memory) → Option Memory
    rest r = elim r [
      | none ↦ none
      | some (ret, mem) ↦ if ret == 0 then none else allocate fuel ns mem
    ]

pub Grown-IsReady : (m m' : Memory) (j k : ℕ) → Grown m m' j → IsReady m (j + k) → IsReady m' k
Grown-IsReady m m' j k g w = record {
  head = g.head ∙ w.head;
  above = omega (arith, g.start, w.above);
  room = omega (arith, g.start, g.stop, w.room);
  low = omega (arith, g.stop, w.low);
  available = omega (arith, g.available, w.available);
  in_range = omega (arith, g.available, w.in_range);
}

pub weaken : (m : Memory) (j k : ℕ) → IsReady m (j + k) → IsReady m j
weaken m j k w = record {
  head = w.head;
  above = w.above;
  room = omega (arith, w.room);
  low = w.low;
  available = omega (arith, w.available);
  in_range = w.in_range;
}

Grown-trans : (m m1 m2 : Memory) (j k : ℕ) → Grown m m1 j → Grown m1 m2 k → Grown m m2 (j + k)
Grown-trans m m1 m2 j k g h = record {
  start = omega (arith, g.start, h.start);
  stop = h.stop ∙ g.stop;
  others = λ a o. h.others a o ∙ g.others a o;
  links = h.links ∙ g.links;
  head = h.head ∙ g.head;
  available = omega (arith, g.available, h.available);
}

-- The calls succeed, and take their pages from the start of `init_list`.
pub allocate-Grown :
    (fuel : ℕ) (ns : List ℕ) (m : Memory)
    → AllPositive ns
    → IsReady m (sum ns)
    → (m' : Memory) × (allocate (suc fuel) ns m ≡ some m') × Grown m m' (sum ns)
unfolding allocate
allocate-Grown fuel [] m a w = (
  m,
  refl,
  record {
    start = omega arith;
    stop = refl;
    others = λ a h. refl;
    links = refl;
    head = refl;
    available = omega arith;
  },
)
allocate-Grown fuel (n ∷ ns) m a w =
    let first = weaken m n (sum ns) w in
    let g = cut-Grown fuel n m a.0 first in
    let m1 : Memory = counted n (cut fuel n m a.0 first) in
    let (m', e, h) = allocate-Grown fuel ns m1 a.1 (Grown-IsReady m m1 n (sum ns) g w) in
    (
      m',
      allocate-step (suc fuel) n ns m m1 (m.nodes 0).start (get_pages-first fuel n m a.0 first)
            (ground (arith, w.above))
          ∙ e,
      Grown-trans m m1 m' n (sum ns) g h,
    )
