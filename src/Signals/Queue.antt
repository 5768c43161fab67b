-- ===== src/Signals/Queue.antt =====
-- What becomes of the signals: `hermit_kill` queues them, and the interrupt handler delivers them
-- all.
use libhermit.Base.{
  ℕ, ◌-◌, ◌^◌, ◌<◌, ◌≡◌, ◌⊎◌, inl, inr, ap, ◌∙◌, false, List, [], ◌∷◌, ◌++◌, arith, update, ◌==◌,
  ==_iff, if◌then◌else◌, fun_ext,
}
use libhermit.Sched.{get_task, TaskError}
use libhermit.Dequeue.{Dequeue, Code, ok, IsValid, contents, count, dequeue_push-append}
use libhermit.Signals.Defs.{
  SignalCode, done, no_entry, no_memory, Signals, hermit_kill, queue_signal, call_self, pack_sig,
  sig_dest, sig_signum, deliver,
}

pub sig_dest-pack_sig : (dest signum : ℕ) → dest < 2 ^ 32 → sig_dest (pack_sig dest signum) ≡ dest
sig_dest-pack_sig dest signum h = omega arith

pub sig_signum-pack_sig :
    (dest signum : ℕ) → signum < 2 ^ 32 → sig_signum (pack_sig dest signum) ≡ signum
sig_signum-pack_sig dest signum h = omega arith

abbrev with_queue : ℕ → Dequeue → Signals → Signals
with_queue c d g = record g { signal_queue = update g.signal_queue c d }

update_same : (f : ℕ → Dequeue) (c : ℕ) → update f c (f c) ≡ f
update_same f c = fun_ext λ a. ground (arith, ==_iff c a)

update_twice : (f : ℕ → Dequeue) (c : ℕ) (x y : Dequeue) → update (update f c x) c y ≡ update f c y
update_twice f c x y = fun_ext λ a. ground arith

-- The state after the signals have been delivered one by one.
abbrev pub deliver_all : ℕ → ℕ → ℕ → ℕ → List ℕ → Signals → Signals
deliver_all max_tasks epilog here s [] g = g
deliver_all max_tasks epilog here s (x ∷ xs) g =
    deliver_all max_tasks epilog here s xs (deliver max_tasks epilog here s x g)

module _ (max_tasks here dest signum : ℕ) (g : Signals)
    (exists : get_task max_tasks dest g.kernel ≡ inr dest)
    (other : (dest == g.kernel.current_task here) ≡ false) where
  abbrev core : ℕ
  core = (g.kernel.task_table dest).last_core

  kill-eq : hermit_kill max_tasks here dest signum g ≡ queue_signal core dest signum g
  unfolding hermit_kill
  kill-eq =
      ap
        (λ (c : TaskError ⊎ ℕ). elim c [
          | inl _ ↦ (no_entry, g)
          | inr task ↦
              if task == g.kernel.current_task here
              then (done, call_self task signum g)
              else queue_signal (g.kernel.task_table task).last_core dest signum g
        ])
        exists
      ∙ ap (λ b. if b then (done, call_self dest signum g) else queue_signal core dest signum g)
          other

  abbrev pushed : Code × Dequeue → SignalCode × Signals
  pushed (code, d) = elim code [
    | ok ↦ (
      done,
      record g { signal_queue = update g.signal_queue core d; interrupts = core ∷ g.interrupts },
    )
    | _ ↦ (no_memory, record g { signal_queue = update g.signal_queue core d })
  ]

  -- For a task that exists and is not the current one, and a valid queue of its core: if the queue
  -- holds one signal less than it has slots, `hermit_kill` fails with -ENOMEM and changes nothing.
  -- Otherwise it succeeds: the signal stands behind the others in the queue, which stays valid, and
  -- the core is sent an interrupt.
  pub hermit_kill-queues :
      (valid : IsValid (g.signal_queue core))
      → ((count (g.signal_queue core) ≡ (g.signal_queue core).buffer_length - 1)
          × (hermit_kill max_tasks here dest signum g ≡ (no_memory, g)))
        ⊎ ((d : Dequeue) × (hermit_kill max_tasks here dest signum g ≡ (
          done,
          record g {
            signal_queue = update g.signal_queue core d;
            interrupts = core ∷ g.interrupts;
          },
        ))
            × IsValid d
            × (contents d ≡ contents (g.signal_queue core) ++ pack_sig dest signum ∷ []))
  hermit_kill-queues valid = elim (dequeue_push-append valid (pack_sig dest signum)) [
    | inl (full, e) ↦ inl (
      full,
      kill-eq
          ∙ ap pushed e
          ∙ ap (λ q. (no_memory, record g { signal_queue = q })) (update_same g.signal_queue core),
    )
    | inr (d, room, e, v, c) ↦ inr (d, kill-eq ∙ ap pushed e, v, c)
  ]
