-- ===== src/Signals/Deliver.antt =====
-- A signal from one task to another one, from `hermit_kill` to the frame of the handler.
use libhermit.Base.{
  ℕ, ◌<◌, ◌≤◌, ◌^◌, ◌≡◌, inl, inr, refl, sym, ap, ◌∙◌, false, some, [], ◌∷◌, ◌++◌, arith, update,
  ◌==◌, ==-refl, if◌then◌else◌, length, length-window,
}
use libhermit.Sched.{get_task}
use libhermit.Dequeue.{Dequeue, IsValid, contents, count}
use libhermit.Signals.Defs.{
  done, Signals, deliver_task, hermit_kill, pack_sig, sig_signum, inject, deliver, deliver_to,
  signal_irq_handler,
}
use libhermit.Signals.Queue.{hermit_kill-queues, sig_dest-pack_sig, sig_signum-pack_sig}
use libhermit.Signals.Drain.{handler-Drained}

deliver-inject :
    (max_tasks epilog s dest signum h : ℕ) (g : Signals)
    → dest < 2 ^ 32
    → signum < 2 ^ 32
    → get_task max_tasks dest g.kernel ≡ inr dest
    → g.handlers dest ≡ some h
    → deliver max_tasks epilog (g.kernel.task_table dest).last_core s (pack_sig dest signum) g
      ≡ inject epilog (g.kernel.task_table dest).last_core s dest h signum g
unfolding deliver
deliver-inject max_tasks epilog s dest signum h g small word exists has =
    let core = (g.kernel.task_table dest).last_core in
    ap
      (λ a.
        deliver_task epilog core s (sig_signum (pack_sig dest signum))
          (get_task max_tasks a g.kernel) g)
      (sig_dest-pack_sig dest signum small)
    ∙ ap (λ n. deliver_task epilog core s n (get_task max_tasks dest g.kernel) g)
        (sig_signum-pack_sig dest signum word)
    ∙ ap (λ r. deliver_task epilog core s signum r g) exists
    ∙ ap (λ b. if b then deliver_to epilog core s dest signum (g.handlers dest) g else g)
        (==-refl core)
    ∙ ap (λ o. deliver_to epilog core s dest signum o g) has

module _ (max_tasks epilog here s dest signum h fuel : ℕ) (g : Signals)
    (exists : get_task max_tasks dest g.kernel ≡ inr dest)
    (other : (dest == g.kernel.current_task here) ≡ false) (small : dest < 2 ^ 32)
    (word : signum < 2 ^ 32) (has : g.handlers dest ≡ some h) (enough : 2 ≤ fuel) where
  abbrev core : ℕ
  core = (g.kernel.task_table dest).last_core

  -- For a task that exists and is not the current one of the sender's core, has a handler, and
  -- whose core has an empty queue with at least two slots; `dest` and `signum` are 32-bit words,
  -- and the fuel is at least 2. `hermit_kill` succeeds and interrupts the core of the task, and the
  -- interrupt handler that runs there returns and has laid the call of the task's handler, with
  -- this signal, into the task's control flow. Besides the list of interrupts, only queues change
  -- otherwise.
  pub kill_delivers :
      IsValid (g.signal_queue core)
      → contents (g.signal_queue core) ≡ []
      → 2 ≤ (g.signal_queue core).buffer_length
      → (g1 : Signals) × (g2 : Signals) × (hermit_kill max_tasks here dest signum g ≡ (done, g1))
        × (g1 ≡ record g { signal_queue = g1.signal_queue; interrupts = core ∷ g.interrupts })
        × (signal_irq_handler fuel max_tasks epilog core s g1 ≡ some g2)
        × (g2 ≡ record (inject epilog core s dest h signum g1) { signal_queue = g2.signal_queue })
        × (contents (g2.signal_queue core) ≡ [])
  kill_delivers v e room = elim (hermit_kill-queues max_tasks here dest signum g exists other v) [
    | inl (full, _) ↦ absurd (
        omega (
          arith,
          full,
          room,
          ap length e,
          length-window (g.signal_queue core).buffer (g.signal_queue core).buffer_length
              (g.signal_queue core).front (count (g.signal_queue core)),
        ))
    | inr (d, r, w, c) ↦
        let g1 : Signals = record g {
          signal_queue = update g.signal_queue core d;
          interrupts = core ∷ g.interrupts;
        } in
        let (g2, r', m) =
          handler-Drained max_tasks epilog core s fuel g1 (pack_sig dest signum ∷ [])
            (rw (==-refl core) w)
            (ap (λ b. contents (if b then d else g.signal_queue core)) (==-refl core)
              ∙ c
              ∙ ap (λ l. l ++ pack_sig dest signum ∷ []) e)
            (omega (arith, enough)) in
        (
          g1,
          g2,
          r,
          refl,
          r',
          m.delivered
              ∙ ap (λ (z : Signals). record z { signal_queue = m.queues })
                  (deliver-inject max_tasks epilog s dest signum h g1 small word exists has)
              ∙ ap
                  (λ (q : ℕ → Dequeue). record (inject epilog core s dest h signum g1) {
                    signal_queue = q;
                  })
                  (sym (ap (λ (z : Signals). z.signal_queue) m.delivered)),
          ap (λ (z : Signals). contents (z.signal_queue core)) m.delivered ∙ m.empty,
        )
  ]
