-- ===== src/Sched/Tests.antt =====
-- Runs of the scheduler's theorems on the machine of the tests.
use libhermit.Base.{ℕ, ◌≡◌, refl, true, false, Option, none, some, [], ◌∷◌, arith}
use libhermit.Sched.Defs.{Kernel, readyqueues_push_back}
use libhermit.Sched.Ops.{wakeup_task, set_timer, check_timers}
use libhermit.Sched.Switch.{returned, scheduler, pick_next}
use libhermit.Sched.Inv.{IsValid, requeue, retime}
use libhermit.Sched.Machine.{
  machine, machine-IsValid, no_queues, no_timers, loaded, loaded-IsValid, queues, asleep,
  asleep-IsValid, sleepers,
}
use libhermit.Sched.Pick.{Started, pick_next-Started}
use libhermit.Sched.Schedule.{IsTop, Switched, scheduler-Switched}
use libhermit.Sched.Total.{Returns, scheduler_total}
use libhermit.Sched.Wake.{wakeup_task-IsValid}
use libhermit.Sched.Due.{due, pending, arrived}
use libhermit.Sched.Expire.{IsArmed, check_timers_lem}
use libhermit.Sched.Alarm.{set_timer-IsValid}

top : IsTop queues 0 3 2 []
top = record { head = refl; above = λ j g. ground arith }

pick_next-Started_example :
    (r : Option ℕ) × (k' : Kernel) × (pick_next 0 1 4 (loaded false) ≡ returned r k')
    × Started (loaded false) k' queues no_timers 0 3 2 []
pick_next-Started_example = pick_next-Started (loaded-IsValid false) 0 3 2 1 [] refl

scheduler-Switched_example :
    (r : Option ℕ) × (k' : Kernel) × (scheduler 0 (loaded false) ≡ returned r k')
    × Switched (loaded false) k' queues no_timers 0 3 2 []
unfolding readyqueues_push_back
scheduler-Switched_example = scheduler-Switched (loaded-IsValid false) 0 3 2 [] top refl refl refl

scheduler_total_example : Returns (scheduler 0 (loaded true)) no_timers
unfolding readyqueues_push_back
scheduler_total_example = scheduler_total (loaded-IsValid true) 0 0 refl refl

wakeup_task-IsValid_example :
    let (done, k') = wakeup_task 5 0 3 (machine false none) in
    (done ≡ true) × IsValid k' (requeue no_queues 0 4 (3 ∷ [])) (retime no_timers 0 [])
wakeup_task-IsValid_example =
    wakeup_task-IsValid (machine-IsValid false none) 5 0 3 4 refl refl (omega arith)

set_timer-IsValid_example :
    (k' : Kernel) × (set_timer 3 7 0 100 (loaded false) ≡ some (true, k'))
    × IsValid k' queues (retime no_timers 0 (1 ∷ []))
unfolding readyqueues_push_back
set_timer-IsValid_example =
    set_timer-IsValid (loaded-IsValid false) 3 7 0 100 1 refl refl refl (omega arith)

check_timers_lem_example :
    let waits = pending (λ a. (asleep.task_table a).timeout) 15 (sleepers 0) in
    (k' : Kernel) × (check_timers 3 15 0 asleep ≡ some k')
    × IsValid k'
        (arrived
          (λ a. (asleep.task_table a).prio)
          no_queues
          0
          (due (λ a. (asleep.task_table a).timeout) 15 (sleepers 0)))
        (retime sleepers 0 waits)
    × IsArmed (λ a. (asleep.task_table a).timeout) 15 (k'.alarm 0) waits
check_timers_lem_example =
    check_timers_lem asleep-IsValid 3 15 0 (omega arith) (λ a m. ground arith)
