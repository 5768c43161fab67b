-- ===== src/Dequeue/Tests.antt =====
-- Runs of the dequeue's theorems on a buffer of three slots that holds one element.
use libhermit.Base.{◌-◌, ◌<◌, ◌≡◌, ◌⊎◌, [], ◌∷◌, ◌++◌, arith}
use libhermit.Dequeue.Defs.{Dequeue, ok, eoverflow, dequeue_init, dequeue_push}
use libhermit.Dequeue.Refine.{IsValid, count, contents, dequeue_push-append}

abbrev held : Dequeue
held = (dequeue_push (dequeue_init (0 ∷ 0 ∷ 0 ∷ []) 3) 8).1

held-IsValid : IsValid held
unfolding dequeue_push dequeue_init
held-IsValid = record {
  storage = ground arith;
  small = ground arith;
  front_in = ground arith;
  back_in = ground arith;
}

dequeue_push-append_example :
    ((count held ≡ held.buffer_length - 1) × (dequeue_push held 9 ≡ (eoverflow, held)))
    ⊎ ((d' : Dequeue) × (count held < held.buffer_length - 1)
        × (dequeue_push held 9 ≡ (ok, d'))
        × IsValid d'
        × (contents d' ≡ contents held ++ 9 ∷ []))
dequeue_push-append_example = dequeue_push-append held-IsValid 9
