-- ===== src/Signals/Defs.antt =====
-- arch/x86_64/kernel/signal.c. An element of a signal queue is the
-- eight bytes of a `sig_t` as a number. `max_tasks` is the configured number of tasks.
use libhermit.Base.{
  inl, inr, ◌⊎◌, ℕ, zero, suc, ◌+◌, ◌*◌, ◌/◌, ◌%◌, ◌^◌, Option, none, some, List, ◌∷◌, ltb, ◌==◌,
  if◌then◌else◌, update,
}
use libhermit.Sched.{get_task, TaskError, Kernel, set_task}
use libhermit.Dequeue.{Dequeue, ok, dequeue_init, dequeue_push, dequeue_pop}
use libhermit.Signals.Frame.{Words, field, int_no, inject_below, inject_here}

-- 0, -ENOENT, -ENOMEM
pub data SignalCode : Type 0 where
  done no_entry no_memory : SignalCode

-- `struct _sig`, in memory order.
abbrev pub pack_sig : ℕ → ℕ → ℕ
pack_sig dest signum = dest % 2 ^ 32 + signum % 2 ^ 32 * 2 ^ 32

abbrev pub sig_dest : ℕ → ℕ
sig_dest s = s % 2 ^ 32

abbrev pub sig_signum : ℕ → ℕ
sig_signum s = s / 2 ^ 32 % 2 ^ 32

-- The kernel with what the signals use: `handlers` are the tasks' `signal_handler`, `called` the
-- calls that `hermit_kill` has made itself, and `interrupts` the cores that were sent `SIGNAL_IRQ`,
-- latest first.
pub record Signals : Type 0 where
  pub kernel : Kernel
  pub handlers : ℕ → Option ℕ
  pub signal_queue : ℕ → Dequeue
  pub memory : Words
  pub called : List (ℕ × ℕ)
  pub interrupts : List ℕ

unfoldable pub hermit_signal : ℕ → Option ℕ → Signals → Signals
hermit_signal here handler g = record g {
  handlers = update g.handlers (g.kernel.current_task here) handler;
}

-- `dest == per_core(current_task)`: the handler is called at once.
abbrev pub call_self : ℕ → ℕ → Signals → Signals
call_self dest signum g = elim (g.handlers dest) [
  | none ↦ g
  | some h ↦ record g { called = (h, signum) ∷ g.called }
]

abbrev pub queue_signal : ℕ → ℕ → ℕ → Signals → SignalCode × Signals
queue_signal core dest signum g =
    let (code, d) = dequeue_push (g.signal_queue core) (pack_sig dest signum) in
    elim code [
      | ok ↦ (
        done,
        record g { signal_queue = update g.signal_queue core d; interrupts = core ∷ g.interrupts },
      )
      | _ ↦ (no_memory, record g { signal_queue = update g.signal_queue core d })
    ]

unfoldable pub hermit_kill : ℕ → ℕ → ℕ → ℕ → Signals → SignalCode × Signals
hermit_kill max_tasks here dest signum g = elim (get_task max_tasks dest g.kernel) [
  | inl _ ↦ (no_entry, g)
  | inr task ↦
      if task == g.kernel.current_task here
      then (done, call_self task signum g)
      else queue_signal (g.kernel.task_table task).last_core dest signum g
]

-- A NULL stack pointer is the address 0.
abbrev pub address_of : Option ℕ → ℕ
address_of none = 0
address_of (some a) = a

-- Where the state of the task is: `s` if this interrupt has interrupted it.
abbrev pub state_of : ℕ → ℕ → ℕ → Kernel → ℕ
state_of here s dest k =
    if dest == k.current_task here then s else address_of (k.task_table dest).last_stack_pointer

-- The state is on the stack of the task, where the new frame becomes the one to continue with.
abbrev pub inject_on_stack : ℕ → ℕ → ℕ → ℕ → ℕ → Signals → Signals
inject_on_stack epilog task_state dest handler signum g =
    let t = g.kernel.task_table dest in
    let (frame, m) =
      inject_below epilog task_state (address_of t.last_stack_pointer) handler signum g.memory in
    record g {
      memory = m;
      kernel = set_task g.kernel dest (record t { last_stack_pointer = some frame });
    }

-- The state is on an interrupt stack.
abbrev pub inject_on_ist : ℕ → ℕ → ℕ → ℕ → Signals → Signals
inject_on_ist epilog task_state handler signum g = record g {
  memory = inject_here epilog task_state handler signum g.memory;
}

-- The pseudo state that `reschedule` pushes has the interrupt number 0.
unfoldable pub inject : ℕ → ℕ → ℕ → ℕ → ℕ → ℕ → Signals → Signals
inject epilog here s dest handler signum g =
    let task_state = state_of here s dest g.kernel in
    if g.memory (field task_state int_no) == 0
    then inject_on_stack epilog task_state dest handler signum g
    else inject_on_ist epilog task_state handler signum g

-- A signal for a task that has a handler, or not.
abbrev pub deliver_to : ℕ → ℕ → ℕ → ℕ → ℕ → Option ℕ → Signals → Signals
deliver_to epilog here s dest signum none g = g
deliver_to epilog here s dest signum (some h) g = inject epilog here s dest h signum g

-- A signal for what `get_task` has found.
abbrev pub deliver_task : ℕ → ℕ → ℕ → ℕ → TaskError ⊎ ℕ → Signals → Signals
deliver_task epilog here s signum (inl _) g = g
deliver_task epilog here s signum (inr task) g =
    if (g.kernel.task_table task).last_core == here
    then deliver_to epilog here s task signum (g.handlers task) g
    else g

-- One signal of the queue of core `here`; `s` is the frame of this interrupt.
unfoldable pub deliver : ℕ → ℕ → ℕ → ℕ → ℕ → Signals → Signals
deliver max_tasks epilog here s sig g =
    deliver_task epilog here s (sig_signum sig) (get_task max_tasks (sig_dest sig) g.kernel) g

-- `none` is a queue that `fuel` does not empty, or an index beyond the buffer.
unfoldable pub signal_irq_handler : ℕ → ℕ → ℕ → ℕ → ℕ → Signals → Option Signals
signal_irq_handler zero max_tasks epilog here s g = none
signal_irq_handler (suc fuel) max_tasks epilog here s g =
    let (code, out, d) = dequeue_pop (g.signal_queue here) in
    elim code [
      | ok ↦ elim out [
        | none ↦ none
        | some sig ↦ signal_irq_handler fuel max_tasks epilog here s (
            deliver max_tasks epilog here s sig
              (record g { signal_queue = update g.signal_queue here d }))
      ]
      | _ ↦ some g
    ]

-- `buffers` is `signal_buffer`. The installation of the interrupt handler is not modelled.
unfoldable pub signal_init : (ℕ → List ℕ) → ℕ → Signals → Signals
signal_init buffers max_cores g = record g {
  signal_queue = λ c. if ltb c max_cores then dequeue_init (buffers c) 16 else g.signal_queue c;
}
