-- ===== src/Pages/Defs.antt =====
-- arch/x86_64/mm/memory.c: `get_pages` and `put_pages`. A node of the free list is named by a
-- number, `none` is NULL, and node 0 is `init_list`. The lock makes each function one step. `fuel`
-- bounds the walks; `none` is a walk that runs out of it.
use libhermit.Base.{
  ℕ, zero, suc, ◌+◌, ◌-◌, ◌*◌, ◌/◌, ◌%◌, ◌^◌, Bool, true, false, Option, none, some, List, [], ◌∷◌,
  ltb, ◌==◌, if◌then◌else◌, is_some, update,
}
use libhermit.TaskList.{Links}

-- `stop` is the field `end`.
pub record Node : Type 0 where
  pub start : ℕ
  pub stop : ℕ

-- `freed` are the nodes that were passed to `kfree`, latest first.
pub record Memory : Type 0 where
  pub nodes : ℕ → Node
  pub links : Links
  pub free_start : Option ℕ
  pub freed : List ℕ
  pub total_allocated_pages : ℕ
  pub total_available_pages : ℕ

-- `(curr->end - curr->start) / PAGE_SIZE`, on `size_t`.
abbrev pub node_pages : Node → ℕ
node_pages n = (n.stop + 2 ^ 64 - n.start) % 2 ^ 64 / 4096

-- The node that is taken as a whole: behind the head, its own `prev` is set, and not the `next` of
-- the node in front of it.
abbrev pub drop_node : ℕ → Memory → Memory
drop_node c m =
    let next = m.links.next c in
    let m1 =
      if is_some (m.links.prev c)
      then record m { links = record m.links { prev = update m.links.prev c next } }
      else record m { free_start = next } in
    if c == 0 then m1 else record m1 { freed = c ∷ m.freed }

-- The loop of `get_pages`: the address, and 0 if no node is large enough.
unfoldable pub take_pages : ℕ → ℕ → Option ℕ → Memory → Option (ℕ × Memory)
take_pages zero npages curr m = none
take_pages (suc fuel) npages none m = some (0, m)
take_pages (suc fuel) npages (some c) m =
    let n = m.nodes c in
    elim (ltb npages (node_pages n)) [
      | true ↦ some (
        n.start,
        record m {
          nodes = update m.nodes c (record n { start = (n.start + npages * 4096) % 2 ^ 64 });
        },
      )
      | false ↦ elim (node_pages n == npages) [
        | true ↦ some (n.start, drop_node c m)
        | false ↦ take_pages fuel npages (m.links.next c) m
      ]
    ]

-- The counters are changed unless the address is 0.
abbrev pub count_taken : ℕ → ℕ → Memory → ℕ × Memory
count_taken npages ret m = if ret == 0 then (ret, m) else (
  ret,
  record m {
    total_allocated_pages = (m.total_allocated_pages + npages) % 2 ^ 64;
    total_available_pages = (m.total_available_pages + 2 ^ 64 - npages) % 2 ^ 64;
  },
)

unfoldable pub get_pages : ℕ → ℕ → Memory → Option (ℕ × Memory)
get_pages fuel npages m =
    if npages == 0
    then some (0, m)
    else if ltb m.total_available_pages npages
    then some (0, m)
    else elim (take_pages fuel npages m.free_start m) [
      | none ↦ none
      | some (ret, m') ↦ some (count_taken npages ret m')
    ]

-- 0, -EINVAL and -ENOMEM
pub data PutCode : Type 0 where
  done einval enomem : PutCode

-- A new element behind `c`. Its successor's `prev` is not set.
abbrev pub insert_node : ℕ → ℕ → ℕ → ℕ → Memory → Memory
insert_node n c start stop m = record m {
  nodes = update m.nodes n (record { start = start; stop = stop });
  links = record {
    next = update (update m.links.next n (m.links.next c)) c (some n);
    prev = update m.links.prev n (some c);
  };
}

-- The loop of `put_pages`; it goes on behind a new element. `news` are the results of `kmalloc`;
-- NULL once they are used up.
unfoldable pub give_pages : ℕ → ℕ → ℕ → List ℕ → Option ℕ → Memory → Option (Bool × Memory)
give_pages zero phyaddr npages news curr m = none
give_pages (suc fuel) phyaddr npages news none m = some (true, m)
give_pages (suc fuel) phyaddr npages news (some c) m =
    let a = m.nodes c in
    let stop = (phyaddr + npages * 4096) % 2 ^ 64 in
    elim (stop == a.start) [
      | true ↦ some (true, record m { nodes = update m.nodes c (record a { start = phyaddr }) })
      | false ↦ elim (phyaddr == a.stop) [
        | true ↦ some (
          true,
          record m {
            nodes = update m.nodes c (record a { stop = (a.stop + npages * 4096) % 2 ^ 64 });
          },
        )
        | false ↦ elim (ltb a.stop phyaddr) [
          | true ↦ elim news [
            | [] ↦ some (false, m)
            | n ∷ rest ↦
                let m1 = insert_node n c phyaddr stop m in
                give_pages fuel phyaddr npages rest (m1.links.next c) m1
          ]
          | false ↦ give_pages fuel phyaddr npages news (m.links.next c) m
        ]
      ]
    ]

unfoldable pub put_pages : ℕ → ℕ → ℕ → List ℕ → Memory → Option (PutCode × Memory)
put_pages fuel phyaddr npages news m =
    if phyaddr == 0
    then some (einval, m)
    else if npages == 0
    then some (einval, m)
    else elim (give_pages fuel phyaddr npages news m.free_start m) [
      | none ↦ none
      | some (false, m') ↦ some (enomem, m')
      | some (true, m') ↦ some (
        done,
        record m' {
          total_allocated_pages = (m'.total_allocated_pages + 2 ^ 64 - npages) % 2 ^ 64;
          total_available_pages = (m'.total_available_pages + npages) % 2 ^ 64;
        },
      )
    ]
