-- ===== src/Mailbox/Tests.antt =====
-- A mailbox of two slots: task 0 posts 7, and task 1 fetches it.
use libhermit.Base.{ℕ, ◌≤◌, ◌≡◌, List, [], ◌∷◌, ◌++◌, arith, length, window}
use libhermit.Mailbox.Defs.{System, Reach, start, later, take_box, put, post_mail}
use libhermit.Mailbox.Fifo.{Reach-fifo}

-- Task 0 has posted 7 and then written 8.
full : (s : System) × Reach 2 2 s (7 ∷ 8 ∷ []) []
full = (
  _,
  later
      (later
        (later (later (later start 0 (omega arith) (take_box 7 (omega arith))) 0 (omega arith) put)
          0 (omega arith) post_mail)
        0 (omega arith) (take_box 8 (omega arith)))
      0 (omega arith) put,
)

Reach-fifo_example :
    (pending : List ℕ) × (7 ∷ 8 ∷ [] ≡ [] ++ pending)
    × (length pending ≤ 2)
    × (window full.0.box.buffer 2 full.0.box.rpos (length pending) ≡ pending)
Reach-fifo_example = Reach-fifo (omega arith) (omega arith) full.1
