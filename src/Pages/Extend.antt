-- ===== src/Pages/Extend.antt =====
-- A turn of the second loop of `memory_init`.
use libhermit.Base.{
  ℕ, suc, ◌+◌, ◌*◌, ◌==◌, ◌^◌, ◌≤◌, ◌<◌, ◌≡◌, inl, inr, refl, sym, subst, ap, ◌∙◌, Bool, true,
  false, Option, none, some, List, [], ◌∷◌, arith, ltb, ==_iff, ◌&&◌, if◌then◌else◌, mem,
  Bool-cases,
}
use libhermit.Pages.Defs.{Node, Memory}
use libhermit.Pages.Fit.{IsFreeList}
use libhermit.Pages.Boot.{
  Region, Layout, Grant, below_kernel, free_start_of, append_node, allocate, add_regions,
}
use libhermit.Pages.Allocate.{sum, AllPositive, IsReady, Grown}
use libhermit.Pages.Regions.{IsLow, IsSafe, AllSafe}

-- The calls of `kmalloc` return these nodes, and take so many pages.
abbrev pub nodes_of : List Grant → List ℕ
nodes_of [] = []
nodes_of (g ∷ gs) = g.node ∷ nodes_of gs

abbrev pub pages_of : List Grant → ℕ
pages_of [] = 0
pages_of (g ∷ gs) = sum g.sizes + pages_of gs

abbrev pub AllAsk : List Grant → Type 0
AllAsk [] = Unit
AllAsk (g ∷ gs) = AllPositive g.sizes × AllAsk gs

-- At most the first `k` pages are missing.
pub record Shrunk (n n' : Node) (k : ℕ) : Type 0 where
  pub from : n.start ≤ n'.start
  pub upto : n'.start ≤ n.start + k * 4096
  pub stop : n'.stop ≡ n.stop

-- A node of the list: its range is not turned round.
abbrev pub IsOrdered : Node → Type 0
IsOrdered n = (n.start ≤ n.stop) × (n.stop < 2 ^ 64)

-- What the second loop has done behind the node `last` with new nodes from `news`.
pub record Added (e : Layout) (m m' : Memory) (last k : ℕ) (news used : List ℕ) : Type 0 where
  pub list : IsFreeList m' (some last) (last ∷ used)
  pub safe : AllSafe e m' used
  pub same_nodes : (a : ℕ) → mem a news ≡ false → (0 == a) ≡ false → m'.nodes a ≡ m.nodes a
  pub same_links : (a : ℕ) → mem a (last ∷ news) ≡ false → m'.links.next a ≡ m.links.next a
  pub first : Shrunk (m.nodes 0) (m'.nodes 0) k
  pub head : m'.free_start ≡ m.free_start

pub and_right : (a b : Bool) → (a && b) ≡ true → b ≡ true
and_right a b h = ground arith

pub append-here :
    (m : Memory) (n last start stop : ℕ)
    → (append_node n last start stop m).nodes n ≡ record { start = start; stop = stop }
append-here m n last start stop = ground (arith, ==_iff n n)

append-there :
    (m : Memory) (n last start stop a : ℕ)
    → (n == a) ≡ false
    → (append_node n last start stop m).nodes a ≡ m.nodes a
append-there m n last start stop a h = ground (arith, h)

pub append-end :
    (m : Memory) (n last start stop : ℕ) → (append_node n last start stop m).links.next n ≡ none
append-end m n last start stop = ground (arith, ==_iff n n)

pub append-IsReady :
    (m : Memory) (n last start stop k : ℕ)
    → (n == 0) ≡ false
    → IsReady m k
    → IsReady (append_node n last start stop m) k
append-IsReady m n last start stop k h w =
    let same = append-there m n last start stop 0 h in
    record {
      head = w.head;
      above = subst (λ (x : Node). 0 < x.start) (sym same) w.above;
      room = subst (λ (x : Node). x.start + k * 4096 + 4096 ≤ x.stop) (sym same) w.room;
      low = subst (λ (x : Node). x.stop < 2 ^ 64) (sym same) w.low;
      available = w.available;
      in_range = w.in_range;
    }

module _ (fuel : ℕ) (e : Layout) (low : IsLow e) where
  abbrev pub Adds : List Grant → ℕ → List Region → Memory → Type 0
  Adds news last rs m =
      (m' : Memory) × (used : List ℕ) × (add_regions (suc fuel) e news last rs m ≡ some m')
      × Added e m m' last (pages_of news) (nodes_of news) used

  abbrev pub behind : ℕ → Grant → List Grant → Region → List Region → Option Memory → Option Memory
  behind last g gs r rs o = elim o [
    | none ↦ none
    | some m ↦
        add_regions (suc fuel) e gs g.node rs
          (append_node g.node last (free_start_of e r) (below_kernel e r) m)
  ]

  abbrev pub turn : List Grant → ℕ → Region → List Region → Memory → Bool → Option Memory
  turn news last r rs m b =
      if b
      then elim news [ [] ↦ none | g ∷ gs ↦ behind last g gs r rs (allocate (suc fuel) g.sizes m) ]
      else add_regions (suc fuel) e news last rs m

  pub turn-eq :
      (news : List Grant) (last : ℕ) (r : Region) (rs : List Region) (m : Memory) (b : Bool)
      → (r.available && ltb (free_start_of e r) (below_kernel e r)) ≡ b
      → add_regions (suc fuel) e news last (r ∷ rs) m ≡ turn news last r rs m b
  unfolding add_regions
  turn-eq news last r rs m b h = ap (turn news last r rs m) h

  -- `init_list` stays a range while there are pages for `kmalloc`.
  Shrunk-IsOrdered :
      (m m' : Memory) (k : ℕ)
      → IsReady m k
      → Shrunk (m.nodes 0) (m'.nodes 0) k
      → IsOrdered (m'.nodes 0)
  Shrunk-IsOrdered m m' k w s =
      (omega (arith, s.upto, s.stop, w.room), omega (arith, s.stop, w.low))

  module _ (m m1 m' : Memory) (last n start stop j k : ℕ) (ns used : List ℕ) (grown : Grown m m1 j)
      (w : IsReady m (j + k)) (n_new : (n == 0) ≡ false) (d : mem last (n ∷ ns) ≡ false)
      (o : IsOrdered (m.nodes last))
      (rest : Added e (append_node n last start stop m1) m' n k ns used) where
    first-Shrunk : Shrunk (m.nodes 0) (m'.nodes 0) (j + k)
    first-Shrunk =
        let s =
          subst (λ (x : Node). Shrunk x (m'.nodes 0) k) (append-there m1 n last start stop 0 n_new)
            rest.first in
        record {
          from = omega (arith, s.from, grown.start);
          upto = omega (arith, s.upto, grown.start);
          stop = s.stop ∙ grown.stop;
        }

    kept : (a : ℕ) → mem a (n ∷ ns) ≡ false → (0 == a) ≡ false → m'.nodes a ≡ m.nodes a
    kept a h z =
        rest.same_nodes a (ground (arith, h)) z
        ∙ append-there m1 n last start stop a (ground (arith, h))
        ∙ grown.others a z

    last-IsOrdered : IsOrdered (m'.nodes last)
    last-IsOrdered = elim (Bool-cases (0 == last)) [
      | inl first ↦
          subst (λ (a : ℕ). IsOrdered (m'.nodes a)) ((==_iff 0 last).0 first)
            (Shrunk-IsOrdered m m' (j + k) w first-Shrunk)
      | inr later ↦ subst (λ (x : Node). IsOrdered x) (sym (kept last d later)) o
    ]

    pub cons-Added :
        (0 == n) ≡ false
        → mem n ns ≡ false
        → IsSafe e (record { start = start; stop = stop })
        → Added e m m' last (j + k) (n ∷ ns) (n ∷ used)
    cons-Added up apart safe =
        let new : m'.nodes n ≡ record { start = start; stop = stop } =
          rest.same_nodes n apart up ∙ append-here m1 n last start stop in
        let next : m'.links.next last ≡ some n =
          rest.same_links last d ∙ ground (arith, d, ==_iff last last) in
        record {
          list = (
            refl,
            last-IsOrdered.0,
            last-IsOrdered.1,
            (next, rest.list.1, rest.list.2, rest.list.3),
          );
          safe = (subst (λ (x : Node). IsSafe e x) (sym new) safe, rest.safe);
          same_nodes = kept;
          same_links =
              λ a h. rest.same_links a (ground (arith, h)) ∙ ground (arith, h, grown.links);
          first = first-Shrunk;
          head = rest.head ∙ grown.head;
        }
