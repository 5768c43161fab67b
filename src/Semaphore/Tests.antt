-- ===== src/Semaphore/Tests.antt =====
-- Runs of the semaphore's theorems, for a configuration of four tasks.
use libhermit.Base.{ℕ, ◌+◌, ◌%◌, ◌^◌, ◌≡◌, refl, false, some, none, [], ◌∷◌, arith}
use libhermit.Sched.{Kernel, wakeup_task}
use libhermit.Sched.Inv
use libhermit.Sched.Inv.{requeue, retime}
use libhermit.Sched.Machine.{machine, machine-IsValid, no_queues, no_timers}
use libhermit.Semaphore.Defs.{Sem, Pass, again, sem_init, timed_pass, enqueue, sem_post}
use libhermit.Semaphore.Ring.{IsValid, sem_init-IsValid, enqueue-IsValid}
use libhermit.Semaphore.Post.{sem_post-none, sem_post-some, sem_post-wakes, sem_post-stale}
use libhermit.Semaphore.Wait.{timed_pass-IsValid}

abbrev k : Kernel
k = machine false none

abbrev fresh : Sem
fresh = sem_init 4 0

fresh-IsValid : IsValid 4 fresh []
fresh-IsValid = sem_init-IsValid 4 0 (omega arith) (omega arith) (omega arith)

-- Task `t` waits.
abbrev waiting : ℕ → Sem
waiting t = enqueue 4 t fresh

blocked-IsValid : IsValid 4 (waiting 3) (3 ∷ [])
blocked-IsValid = enqueue-IsValid fresh-IsValid 3 (omega arith) (omega arith)

running-IsValid : IsValid 4 (waiting 1) (1 ∷ [])
running-IsValid = enqueue-IsValid fresh-IsValid 1 (omega arith) (omega arith)

sem_post-none_example :
    let (s', k') = sem_post 4 7 0 (fresh, k) in
    IsValid 4 s' [] × (s'.value ≡ (fresh.value + 1) % 2 ^ 32) × (k' ≡ k)
sem_post-none_example = sem_post-none 7 0 k fresh-IsValid

sem_post-some_example :
    let (s', k') = sem_post 4 7 0 (waiting 3, k) in
    IsValid 4 s' [] × (s'.value ≡ ((waiting 3).value + 1) % 2 ^ 32) × (k' ≡ (wakeup_task 7 0 3 k).1)
sem_post-some_example = sem_post-some 7 0 k 3 [] blocked-IsValid

sem_post-wakes_example :
    let (s', k') = sem_post 4 7 0 (waiting 3, k) in
    IsValid 4 s' [] × Inv.IsValid k' (requeue no_queues 0 4 (3 ∷ [])) (retime no_timers 0 [])
sem_post-wakes_example =
    sem_post-wakes blocked-IsValid 7 0 4 (machine-IsValid false none) refl refl (omega arith)

sem_post-stale_example : let (s', k') = sem_post 4 7 0 (waiting 1, k) in IsValid 4 s' [] × (k' ≡ k)
sem_post-stale_example = sem_post-stale running-IsValid 7 0 (λ e. ground arith)

timed_pass-IsValid_example :
    (p : Pass) × (s' : Sem) × (k' : Kernel) × (timed_pass 4 3 7 0 100 (waiting 3, k)
      ≡ some (p, s', k'))
    × (p ≡ again)
    × (s'.value ≡ 0)
    × IsValid 4 s' (3 ∷ 1 ∷ [])
    × Inv.IsValid k' no_queues (retime no_timers 0 (1 ∷ []))
unfolding sem_init
timed_pass-IsValid_example =
    timed_pass-IsValid blocked-IsValid 0 k (omega arith) (omega arith) (machine-IsValid false none)
      1 refl refl 3 7 100 refl (omega arith)
