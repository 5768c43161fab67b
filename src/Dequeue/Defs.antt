-- ===== src/Dequeue/Defs.antt =====
-- include/hermit/dequeue.h: `dequeue_t` and its operations, for a pointer that is not NULL. An
-- element is a value that is only copied: the slot `i` of `buffer` is the `element_size` bytes from
-- `i * element_size` on. The spinlock makes each operation one step.
use libhermit.Base.{ℕ, ◌+◌, ◌%◌, ◌^◌, Option, none, List, ◌==◌, if◌then◌else◌, get_elem?, set}

pub record Dequeue : Type 0 where
  pub front : ℕ
  pub back : ℕ
  pub buffer : List ℕ
  pub buffer_length : ℕ

-- 0, -EOVERFLOW and -ENOENT
pub data Code : Type 0 where
  ok eoverflow enoent : Code

unfoldable pub dequeue_init : List ℕ → ℕ → Dequeue
dequeue_init buffer n = record { front = 0; back = 0; buffer = buffer; buffer_length = n }

-- `size_t` arithmetic
abbrev pub step_index : ℕ → ℕ → ℕ
step_index i n = (i + 1) % 2 ^ 64 % n

unfoldable pub dequeue_push : Dequeue → ℕ → Code × Dequeue
dequeue_push d x =
    let new_back = step_index d.back d.buffer_length in
    if new_back == d.front
    then (eoverflow, d)
    else (ok, record d { buffer = set d.buffer d.back x; back = new_back })

-- The second component is what is written through `out`.
unfoldable pub dequeue_pop : Dequeue → Code × Option ℕ × Dequeue
dequeue_pop d =
    if d.front == d.back
    then (enoent, none, d)
    else (ok, get_elem? d.buffer d.front, record d { front = step_index d.front d.buffer_length })
