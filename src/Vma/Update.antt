-- ===== src/Vma/Update.antt =====
-- mm/vma.c: `vma_add` and `vma_free`.
use libhermit.Base.{
  ℕ, zero, suc, Bool, true, false, Option, none, some, leb, ◌==◌, if◌then◌else◌, ◌&&◌, ◌||◌, not,
  ptr_eq, is_some, update, update_at,
}
use libhermit.TaskList.{Links}
use libhermit.Vma.Defs.{Area, Vmas, resize, insert_new, next_of}

-- 0, -EINVAL and -ENOMEM
pub data Code : Type 0 where
  ok einval enomem : Code

abbrev pub ends_by : (ℕ → Area) → Option ℕ → ℕ → Bool
ends_by areas none start = true
ends_by areas (some p) start = leb (areas p).stop start

abbrev pub starts_from : (ℕ → Area) → Option ℕ → ℕ → Bool
starts_from areas none end = true
starts_from areas (some p) end = leb end (areas p).start

-- The search of `vma_add`; both pointers are NULL if it ran through the list.
unfoldable pub find_room : ℕ → ℕ → ℕ → Vmas → Option ℕ → Option ℕ → Option (Option ℕ × Option ℕ)
find_room zero start end s pred succ = none
find_room (suc fuel) start end s pred succ = elim (is_some pred || is_some succ) [
  | false ↦ some (pred, succ)
  | true ↦ elim (ends_by s.areas pred start && starts_from s.areas succ end) [
    | true ↦ some (pred, succ)
    | false ↦ find_room fuel start end s succ (next_of s.links succ)
  ]
]

abbrev pub add_new : Option ℕ → Area → Option ℕ → Option ℕ → Vmas → Code × Vmas
add_new new area pred succ s =
    let (done, s') = insert_new new area pred succ s in (if done then ok else enomem, s')

-- The code behind the search.
abbrev pub put_area : ℕ → ℕ → ℕ → Option ℕ → Option ℕ → Option ℕ → Vmas → Code × Vmas
put_area start end flags new none succ s =
    add_new new (record { start = start; stop = end; flags = flags }) none succ s
put_area start end flags new (some p) succ s =
    if (s.areas p).stop == start && (s.areas p).flags == flags
    then (ok, resize p end s)
    else add_new new (record { start = start; stop = end; flags = flags }) (some p) succ s

unfoldable pub vma_add : ℕ → ℕ → ℕ → ℕ → Option ℕ → Vmas → Option (Code × Vmas)
vma_add fuel start end flags new s =
    if leb end start then some (einval, s) else elim (find_room fuel start end s none s.list) [
      | none ↦ none
      | some (pred, succ) ↦
          if is_some s.list && not (is_some pred) && not (is_some succ)
          then some (einval, s)
          else some (put_area start end flags new pred succ s)
    ]

-- The search of `vma_free`: `some none` if no area contains the range.
unfoldable pub find_vma : ℕ → ℕ → ℕ → Vmas → Option ℕ → Option (Option ℕ)
find_vma zero start end s p = none
find_vma (suc fuel) start end s none = some none
find_vma (suc fuel) start end s (some p) =
    elim (leb (s.areas p).start start && leb end (s.areas p).stop) [
      | true ↦ some (some p)
      | false ↦ find_vma fuel start end s (s.links.next p)
    ]

-- The node `p` is taken out of the list by its own links.
abbrev pub unlink : ℕ → Vmas → Vmas
unlink p s =
    let l1 : Links = record s.links {
      next = update_at s.links.next (s.links.prev p) (s.links.next p);
    } in
    record s {
      list = if ptr_eq (some p) s.list then s.links.next p else s.list;
      links = record l1 { prev = update_at l1.prev (l1.next p) (l1.prev p) };
    }

-- The node `new` takes the part of `p` behind `end`. The successor's `prev` is not set.
abbrev pub split : ℕ → ℕ → ℕ → ℕ → Vmas → Vmas
split start end p new s = record s {
  areas =
      update
        (update s.areas new
          (record { start = end; stop = (s.areas p).stop; flags = (s.areas p).flags }))
        p (record (s.areas p) { stop = start });
  links = record {
    next = update (update s.links.next new (s.links.next p)) p (some new);
    prev = update s.links.prev new (some p);
  };
}

-- The second component is the node that is passed to `kfree`.
abbrev pub free_in : ℕ → ℕ → ℕ → Option ℕ → Vmas → Code × Option ℕ × Vmas
free_in start end p new s =
    let a = s.areas p in
    if start == a.start && end == a.stop
    then (ok, some p, unlink p s)
    else if start == a.start
    then (ok, none, record s { areas = update s.areas p (record a { start = end }) })
    else if end == a.stop
    then (ok, none, resize p start s)
    else elim new [ none ↦ (enomem, none, s) | some n ↦ (ok, none, split start end p n s) ]

unfoldable pub vma_free : ℕ → ℕ → ℕ → Option ℕ → Vmas → Option (Code × Option ℕ × Vmas)
vma_free fuel start end new s =
    if leb end start then some (einval, none, s) else elim (find_vma fuel start end s s.list) [
      | none ↦ none
      | some none ↦ some (einval, none, s)
      | some (some p) ↦ some (free_in start end p new s)
    ]
