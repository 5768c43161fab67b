-- ===== src/Sched/Created.antt =====
-- `create_task` and `clone_task` put the new task into its ready queue.
use libhermit.Base.{
  ℕ, zero, suc, ◌+◌, ◌-◌, ◌<◌, ◌≡◌, refl, Bool, true, Option, none, some, List, [], ◌∷◌, ◌++◌,
  arith, ap, ap₂, sym, ◌∙◌, leb, ==-refl, if◌then◌else◌, is_some, Bool-cases, inl, inr, ◌⊎◌,
}
use libhermit.TaskList.{Links, TaskList, Chain, task_list_push_back, push_back_at}
use libhermit.Sched.Defs.{
  Status, Task, Kernel, Release, stack_of, ist_of, heap_of, is_invalid, set_task,
  readyqueues_push_back,
}
use libhermit.Sched.Switch.{find_free}
use libhermit.Sched.Create.{
  CreateCode, ok, enomem, einval, get_next_core_id, clone_task, append_new, enqueue_new, new_task,
  give_back, create_task, start_new,
}
use libhermit.Sched.Inv.{IsQueued, IsValid, requeue, IsSame, same-IsValid, set_task-IsValid}
use libhermit.Sched.Queue.{push_back-IsValid}

-- A list has a first element if and only if it has a last one.
ends-eq :
    (l : Links) (b p e : Option ℕ) (xs : List ℕ)
    → Chain l b p xs e
    → is_some b ≡ true
    → is_some e ≡ true
ends-eq l b p e [] c h = ground arith
ends-eq l b p e (x ∷ xs) c h = ends-eq l (some x) (l.next x) e xs c.2 refl

ends_lem : (l : Links) (f e : Option ℕ) (xs : List ℕ) → Chain l none f xs e → is_some f ≡ is_some e
ends_lem l f e [] c = ground arith
ends_lem l f e (x ∷ xs) c = ground (arith, ends-eq l (some x) (l.next x) e xs c.2 refl)

-- The code for a new task does what `task_list_push_back` does.
append-push_back :
    (l : Links) (f e : Option ℕ) (id : ℕ)
    → is_some f ≡ is_some e
    → append_new (record { first = f; last = e }) id l
      ≡ task_list_push_back (record { first = f; last = e }) (some id) l
unfolding task_list_push_back push_back_at
append-push_back l none none id h = refl
append-push_back l none (some z) id h = absurd (ground arith)
append-push_back l (some y) none id h = absurd (ground arith)
append-push_back l (some y) (some z) id h = refl

module _ {k : Kernel} {qs : ℕ → ℕ → List ℕ} {ts : ℕ → List ℕ} (v : IsValid k qs ts) (c i id : ℕ)
    (has_prio : (k.task_table id).prio ≡ suc i) where
  idx : (k.task_table id).prio - 1 ≡ i
  idx = ground arith

  same_append :
      append_new ((k.readyqueues c).queue i) id k.links
      ≡ task_list_push_back ((k.readyqueues c).queue i) (some id) k.links
  same_append =
      let list = (k.readyqueues c).queue i in
      append-push_back k.links list.first list.last id
        (ends_lem k.links list.first list.last (qs c i) (v.lists c i).chain)

  both_append :
      append_new ((k.readyqueues c).queue (suc i - 1)) id k.links
      ≡ task_list_push_back ((k.readyqueues c).queue ((k.task_table id).prio - 1)) (some id) k.links
  both_append =
      let one : suc i - 1 ≡ i = omega arith in
      ap (λ j. append_new ((k.readyqueues c).queue j) id k.links) one
      ∙ same_append
      ∙ sym (ap (λ j. task_list_push_back ((k.readyqueues c).queue j) (some id) k.links) idx)

  enqueue_new-IsSame : IsSame (readyqueues_push_back c id k) (enqueue_new c id (suc i) k)
  unfolding readyqueues_push_back enqueue_new
  enqueue_new-IsSame = record {
    links = ap (λ (r : TaskList × Links). r.1) both_append;
    tasks = λ a. refl;
    queue = λ c' j. ground (arith, ap (λ (r : TaskList × Links). r.0) both_append);
    bits = λ c' j. ground arith;
    timers = λ c'. ground arith;
  }

is_invalid_eq : {s : Status} → is_invalid s ≡ true → s ≡ Status.invalid
is_invalid_eq {s} h = ground arith

module _ {k : Kernel} {qs : ℕ → ℕ → List ℕ} {ts : ℕ → List ℕ} (v : IsValid k qs ts)
    (id c i stack ist : ℕ) (heap : Option ℕ) (parent : ℕ)
    (unused : (k.task_table id).status ≡ Status.invalid) (in_range : i < 31) where
  abbrev slot : Task
  slot = new_task (k.task_table id) c (suc i) stack ist heap parent

  slot-IsValid : IsValid (set_task k id slot) qs ts
  slot-IsValid =
      set_task-IsValid v id slot (λ c' j. ground (arith, v.queued c' j id))
        (λ c'. ground (arith, v.timed c' id))
        (ground (arith, v.flagged id, v.timed (k.task_table id).last_core id)) (λ r. ground arith)

  slot-IsQueued : IsQueued ((set_task k id slot).task_table id) c i
  slot-IsQueued =
      rw (==-refl id)
        (record { is_ready = refl; has_prio = refl; in_range = in_range; on_core = refl })

  -- A new task in a free slot comes to the end of its ready queue.
  pub start_new-IsValid :
      IsValid
        (enqueue_new c id (suc i) (set_task k id slot))
        (requeue qs c i (qs c i ++ id ∷ []))
        ts
  start_new-IsValid =
      same-IsValid
        (push_back-IsValid slot-IsValid c i id slot-IsQueued (ground (arith, v.queued c i id)))
        (enqueue_new-IsSame slot-IsValid c i id slot-IsQueued.has_prio)

-- The search for a slot finds a free one, or there is none.
pub find_free-cases :
    (n i : ℕ) (table : ℕ → Task)
    → (find_free n i table ≡ none)
      ⊎ ((id : ℕ) × (find_free n i table ≡ some id)
          × (id < i + n)
          × ((table id).status ≡ Status.invalid))
unfolding find_free
find_free-cases zero i table = inl refl
find_free-cases (suc n) i table = elim (Bool-cases (is_invalid (table i).status)) [
  | inl free ↦ inr (i, rw free refl, omega arith, is_invalid_eq free)
  | inr used ↦ elim (find_free-cases n (i + 1) table) [
    | inl e ↦ inl (rw used e)
    | inr (id, e, l, h) ↦ inr (id, rw used e, omega arith, h)
  ]
]

module _ {k : Kernel} {qs : ℕ → ℕ → List ℕ} {ts : ℕ → List ℕ} (v : IsValid k qs ts)
    (max_tasks max_cores c i stack ist counter idle : ℕ) (in_range : i < 31)
    (core_in : c < max_cores) (has_idle : (k.readyqueues c).idle ≡ some idle) where
  abbrev created : Option ℕ → CreateCode × Option ℕ × Kernel
  created frame =
      create_task max_tasks max_cores true (suc i) c (some stack) (some ist) (some counter) frame k

  abbrev by_slot : Option ℕ → Option ℕ → CreateCode × Option ℕ × Kernel
  by_slot frame slot =
      let failed : List Release = heap_of counter ∷ ist_of ist ∷ stack_of stack ∷ [] in
      elim slot [
        | none ↦ (enomem, none, give_back failed k)
        | some id ↦
            start_new c (suc i) id (new_task (k.task_table id) c (suc i) stack ist none 0) frame
              failed k
      ]

module _ {k : Kernel} {qs : ℕ → ℕ → List ℕ} {ts : ℕ → List ℕ} (v : IsValid k qs ts)
    (max_tasks max_cores here last i stack ist : ℕ) (in_range : i < 31) where
  abbrev chosen : ℕ × ℕ
  chosen = get_next_core_id max_cores here last k

  abbrev cloned : CreateCode × Option ℕ × ℕ × Kernel
  cloned = clone_task max_tasks max_cores here last true (suc i) (some stack) (some ist) none k

  abbrev failed : List Release
  failed = ist_of ist ∷ stack_of stack ∷ []

  abbrev clone_slot : ℕ → Task
  clone_slot id =
      let curr = k.current_task here in
      new_task (k.task_table id) chosen.0 (suc i) stack ist (k.task_table curr).heap curr

  abbrev clone_by : Bool → Option ℕ → CreateCode × Option ℕ × ℕ × Kernel
  clone_by bad slot = if bad then (einval, none, chosen.1, give_back failed k) else elim slot [
    | none ↦ (einval, none, chosen.1, give_back failed k)
    | some id ↦
        (ok, some id, chosen.1, enqueue_new chosen.0 id (suc i) (set_task k id (clone_slot id)))
  ]

  cloned-eq : cloned ≡ clone_by (leb max_cores chosen.0) (find_free max_tasks 0 k.task_table)
  unfolding clone_task
  cloned-eq = elim (find_free-cases max_tasks 0 k.task_table) [
    | inl e ↦ rw e (ground arith)
    | inr (id, e, _, _) ↦ rw e (ground arith)
  ]

  -- With a sound priority, and memory for the stacks, `clone_task` puts a ready task into a free
  -- slot and at the end of the ready queue of the core that `get_next_core_id` chooses, and keeps
  -- the invariant. If no core or no slot is found, it fails with -EINVAL, gives the stacks back,
  -- and changes nothing else.
  pub clone_task-IsValid :
      (cloned ≡ (einval, none, chosen.1, give_back failed k))
      ⊎ ((id : ℕ) × (k' : Kernel) × (cloned ≡ (ok, some id, chosen.1, k'))
          × (id < max_tasks)
          × (chosen.0 < max_cores)
          × ((k.task_table id).status ≡ Status.invalid)
          × IsValid k' (requeue qs chosen.0 i (qs chosen.0 i ++ id ∷ [])) ts)
  clone_task-IsValid = elim (Bool-cases (leb max_cores chosen.0)) [
    | inl bad ↦ inl (cloned-eq ∙ ap (λ b. clone_by b (find_free max_tasks 0 k.task_table)) bad)
    | inr good ↦ elim (find_free-cases max_tasks 0 k.task_table) [
      | inl e ↦ inl (cloned-eq ∙ ap₂ clone_by good e)
      | inr (id, e, l, h) ↦ inr (
        id,
        enqueue_new chosen.0 id (suc i) (set_task k id (clone_slot id)),
        cloned-eq ∙ ap₂ clone_by good e,
        omega arith,
        ground arith,
        h,
        start_new-IsValid v id chosen.0 i stack ist (k.task_table (k.current_task here)).heap
            (k.current_task here) h in_range,
      )
    ]
  ]
