-- ===== src/Signals/Drain.antt =====
-- The interrupt handler empties the queue of its core and delivers every signal, in order.
use libhermit.Base.{
  ◌⊎◌, ℕ, zero, suc, ◌<◌, ◌≡◌, inl, inr, refl, sym, ap, ◌∙◌, Bool, true, false, Option, none, some,
  List, [], ◌∷◌, arith, update, ◌==◌, ==-refl, if◌then◌else◌, length,
}
use mathlib.Core.List.{cons≢nil}
use libhermit.Sched.{get_task, TaskError}
use libhermit.Dequeue.{Dequeue, Code, ok, IsValid, contents, dequeue_pop, dequeue_pop-head}
use libhermit.Signals.Frame.{field, int_no}
use libhermit.Signals.Defs.{
  Signals, deliver_task, sig_dest, sig_signum, inject, state_of, inject_on_stack, inject_on_ist,
  deliver_to, deliver, signal_irq_handler,
}
use libhermit.Signals.Queue.{deliver_all}

-- The state with other queues.
abbrev keep : (ℕ → Dequeue) → Signals → Signals
keep q g = record g { signal_queue = q }

keep-if :
    (q : ℕ → Dequeue) (b : Bool) (x y : Signals)
    → (if b then keep q x else keep q y) ≡ keep q (if b then x else y)
keep-if q true x y = refl
keep-if q false x y = refl

module _ (q : ℕ → Dequeue) (max_tasks epilog here s : ℕ) where
  inject-keep :
      (g : Signals) (dest handler signum : ℕ)
      → inject epilog here s dest handler signum (keep q g)
        ≡ keep q (inject epilog here s dest handler signum g)
  unfolding inject
  inject-keep g dest handler signum =
      keep-if q (g.memory (field (state_of here s dest g.kernel) int_no) == 0)
        (inject_on_stack epilog (state_of here s dest g.kernel) dest handler signum g)
        (inject_on_ist epilog (state_of here s dest g.kernel) handler signum g)

  deliver_to-keep :
      (g : Signals) (dest signum : ℕ) (o : Option ℕ)
      → deliver_to epilog here s dest signum o (keep q g)
        ≡ keep q (deliver_to epilog here s dest signum o g)
  deliver_to-keep g dest signum none = refl
  deliver_to-keep g dest signum (some h) = inject-keep g dest h signum

  deliver_task-keep :
      (g : Signals) (signum : ℕ) (r : TaskError ⊎ ℕ)
      → deliver_task epilog here s signum r (keep q g)
        ≡ keep q (deliver_task epilog here s signum r g)
  deliver_task-keep g signum (inl _) = refl
  deliver_task-keep g signum (inr task) =
      let mine : Bool = (g.kernel.task_table task).last_core == here in
      ap (λ y. if mine then y else keep q g) (deliver_to-keep g task signum (g.handlers task))
      ∙ keep-if q mine (deliver_to epilog here s task signum (g.handlers task) g) g

  deliver-keep :
      (g : Signals) (x : ℕ)
      → deliver max_tasks epilog here s x (keep q g) ≡ keep q (deliver max_tasks epilog here s x g)
  unfolding deliver
  deliver-keep g x = deliver_task-keep g (sig_signum x) (get_task max_tasks (sig_dest x) g.kernel)

  deliver_all-keep :
      (g : Signals) (xs : List ℕ)
      → deliver_all max_tasks epilog here s xs (keep q g)
        ≡ keep q (deliver_all max_tasks epilog here s xs g)
  deliver_all-keep g [] = refl
  deliver_all-keep g (x ∷ xs) =
      ap (deliver_all max_tasks epilog here s xs) (deliver-keep g x)
      ∙ deliver_all-keep (deliver max_tasks epilog here s x g) xs

abbrev head : ℕ → List ℕ → ℕ
head d [] = d
head d (x ∷ xs) = x

abbrev tail : List ℕ → List ℕ
tail [] = []
tail (x ∷ xs) = xs

module _ (max_tasks epilog here s : ℕ) where
  abbrev turn : ℕ → Signals → Code × Option ℕ × Dequeue → Option Signals
  turn fuel g (code, out, d) = elim code [
    | ok ↦ elim out [
      | none ↦ none
      | some sig ↦ signal_irq_handler fuel max_tasks epilog here s (
          deliver max_tasks epilog here s sig
            (record g { signal_queue = update g.signal_queue here d }))
    ]
    | _ ↦ some g
  ]

  turn-eq :
      (fuel : ℕ) (g : Signals) (r : Code × Option ℕ × Dequeue)
      → dequeue_pop (g.signal_queue here) ≡ r
      → signal_irq_handler (suc fuel) max_tasks epilog here s g ≡ turn fuel g r
  unfolding signal_irq_handler
  turn-eq fuel g r e = ap (turn fuel g) e

  -- The result on a queue that holds `xs`: the signals are delivered, and the queue is empty.
  pub record Drained (g g' : Signals) (xs : List ℕ) : Type 0 where
    pub queues : ℕ → Dequeue
    pub delivered : g' ≡ keep queues (deliver_all max_tasks epilog here s xs g)
    pub others : (c : ℕ) → (here == c) ≡ false → queues c ≡ g.signal_queue c
    pub valid : IsValid (queues here)
    pub empty : contents (queues here) ≡ []

  -- On a valid queue, with more fuel than it holds signals, the interrupt handler returns: it has
  -- delivered the signals one by one, in the order in which they were sent; the queue of its core
  -- is empty and valid, and those of the other cores are as before.
  pub handler-Drained :
      (fuel : ℕ) (g : Signals) (xs : List ℕ)
      → IsValid (g.signal_queue here)
      → contents (g.signal_queue here) ≡ xs
      → length xs < fuel
      → (g' : Signals) × (signal_irq_handler fuel max_tasks epilog here s g ≡ some g')
        × Drained g g' xs
  handler-Drained zero g xs v e l = absurd (omega arith)
  handler-Drained (suc fuel) g [] v e l = elim (dequeue_pop-head v) [
    | inl (_, r) ↦ (
      g,
      turn-eq fuel g _ r,
      record {
        queues = g.signal_queue;
        delivered = refl;
        others = λ c n. refl;
        valid = v;
        empty = e;
      },
    )
    | inr (y, d, r, _, c) ↦ absurd (cons≢nil (sym c ∙ e))
  ]
  handler-Drained (suc fuel) g (x ∷ xs) v e l = elim (dequeue_pop-head v) [
    | inl (c, _) ↦ absurd (cons≢nil (sym e ∙ c))
    | inr (y, d, r, w, c) ↦
        let q : ℕ → Dequeue = update g.signal_queue here d in
        let same : y ∷ contents d ≡ x ∷ xs = sym c ∙ e in
        let g1 : Signals = deliver max_tasks epilog here s x g in
        let (g', r', m) =
          handler-Drained fuel (keep q g1) xs (rw (==-refl here) w)
            (ap (λ b. contents (if b then d else g.signal_queue here)) (==-refl here)
              ∙ ap tail same)
            (omega (arith, l)) in
        (
          g',
          turn-eq fuel g (ok, some y, d) r
              ∙ ap (λ z. signal_irq_handler fuel max_tasks epilog here s z)
                  (deliver-keep q max_tasks epilog here s g y
                    ∙ ap (λ z. keep q (deliver max_tasks epilog here s z g)) (ap (head x) same))
              ∙ r',
          record {
            queues = m.queues;
            delivered =
                m.delivered ∙ ap (keep m.queues) (deliver_all-keep q max_tasks epilog here s g1 xs);
            others = λ c' n. m.others c' n ∙ ground arith;
            valid = m.valid;
            empty = m.empty;
          },
        )
  ]
