-- ===== src/Signals/Tests.antt =====
-- Runs of the theorems: task 1 sends signal 9 to task 2, whose handler is at the address 77.
use libhermit.Base.{
  ◌+◌, ◌≡◌, inl, refl, false, none, some, [], ◌∷◌, arith, update, ◌==◌, if◌then◌else◌,
}
use libhermit.Sched.{get_task}
use libhermit.Dequeue.{Dequeue, IsValid, contents}
use libhermit.Sched.Machine.{machine}
use libhermit.Signals.Frame.{Words, inject_here, inject_below, sighandler_epilog, exec}
use libhermit.Signals.Defs.{Signals, done, hermit_kill, pack_sig, inject, signal_irq_handler}
use libhermit.Signals.Resume.{Calls, Resumed, inject_here-resumes, inject_below-resumes}
use libhermit.Signals.Drain.{Drained, handler-Drained}
use libhermit.Signals.Deliver.{kill_delivers}

abbrev empty_queue : Dequeue
empty_queue = record { front = 0; back = 0; buffer = 0 ∷ 0 ∷ 0 ∷ 0 ∷ []; buffer_length = 4 }

abbrev quiet : Signals
quiet = record {
  kernel = machine false none;
  handlers = update (λ a. none) 2 (some 77);
  signal_queue = λ c. empty_queue;
  memory = λ a. 0;
  called = [];
  interrupts = [];
}

empty-IsValid : IsValid empty_queue
empty-IsValid = record {
  storage = omega arith;
  small = omega arith;
  front_in = omega arith;
  back_in = omega arith;
}

-- The queue of core 0 holds the signal.
abbrev sent : Signals
sent = record quiet {
  signal_queue = λ c. record {
    front = 1;
    back = 2;
    buffer = 0 ∷ pack_sig 2 9 ∷ 0 ∷ 0 ∷ [];
    buffer_length = 4;
  };
}

handler-Drained_example :
    (g' : Signals) × (signal_irq_handler 2 8 5 0 1000 sent ≡ some g')
    × Drained 8 5 0 1000 sent g' (pack_sig 2 9 ∷ [])
handler-Drained_example =
    handler-Drained 8 5 0 1000 2 sent (pack_sig 2 9 ∷ [])
      (record {
        storage = omega arith;
        small = omega arith;
        front_in = omega arith;
        back_in = omega arith;
      })
      refl (omega arith)

kill_delivers_example :
    (g1 : Signals) × (g2 : Signals) × (hermit_kill 8 0 2 9 quiet ≡ (done, g1))
    × (g1 ≡ record quiet { signal_queue = g1.signal_queue; interrupts = 0 ∷ [] })
    × (signal_irq_handler 2 8 5 0 1000 g1 ≡ some g2)
    × (g2 ≡ record (inject 5 0 1000 2 77 9 g1) { signal_queue = g2.signal_queue })
    × (contents (g2.signal_queue 0) ≡ [])
unfolding get_task
kill_delivers_example =
    kill_delivers 8 5 0 1000 2 9 77 2 quiet refl refl (omega arith) (omega arith) refl (omega arith)
      empty-IsValid refl (omega arith)

-- A state at 1000 with the stack pointer 5000.
abbrev stacked : Words
stacked a = if a == 1104 then 5000 else a

inject_here-resumes_example :
    Calls stacked (inject_here 5 1000 77 9 stacked) 1000 1000 4800 5 77 9
    × Resumed stacked
        (exec sighandler_epilog (inject_here 5 1000 77 9 stacked) (λ i. 4800))
        1000
        5000
inject_here-resumes_example =
    inject_here-resumes stacked 5 77 9 4800 (omega arith) (omega arith) 1000 refl
      (inl (omega arith)) (inject_here 5 1000 77 9 stacked) (λ i. 4800) refl (λ i b. refl)

inject_below-resumes_example :
    let r = inject_below 5 4800 4800 77 9 stacked in
    Calls stacked r.1 4800 r.0 4800 5 77 9
    × Resumed stacked (exec sighandler_epilog r.1 (λ i. 4800)) 4800 (4800 + 200)
inject_below-resumes_example =
    inject_below-resumes stacked 5 77 9 4800 (omega arith) (omega arith)
      (inject_below 5 4800 4800 77 9 stacked).1 (λ i. 4800) refl (λ i b. refl)
