-- ===== src/Mailbox/Fifo.antt =====
-- A mailbox delivers the mails in the order in which they were written, each one once.
use libhermit.Base.{
  append_assoc, ℕ, zero, suc, ◌+◌, ◌^◌, ◌≤◌, ◌<◌, ◌≡◌, refl, sym, ap, ◌∙◌, List, [], ◌++◌, arith,
  length, length-append, sum, window,
}
use libhermit.Semaphore.{replicate}
use libhermit.Mailbox.Defs.{Pc, between, sent, read, System, init, Reach, start, later}
use libhermit.Mailbox.Inv.{is_posting, is_written, is_fetching, is_received, Inv, Move-Next}

length-replicate : (n x : ℕ) → length (replicate n x) ≡ n
length-replicate zero x = refl
length-replicate (suc n) x = ap suc (length-replicate n x)

-- No task is at a place where it counts.
sum-quiet :
    (w : Pc → ℕ) (pc : ℕ → Pc) (n : ℕ)
    → w between ≡ 0
    → ((i : ℕ) → i < n → pc i ≡ between)
    → sum w pc n ≡ 0
sum-quiet w pc zero z h = refl
sum-quiet w pc (suc n) z h =
    omega (arith, ap w (h n (omega arith)), sum-quiet w pc n z (λ i l. h i (omega arith)))

module _ (size n : ℕ) (few : size < 2 ^ 32) (some_slots : 0 < size) where
  init-Inv : Inv size n (init size) []
  init-Inv = record {
    small = few;
    slots = length-replicate size 0;
    rpos_in = some_slots;
    ring = refl;
    wpos_at = ground arith;
    free = omega (
      arith,
      sum-quiet is_posting (λ i. between) n refl (λ i l. refl),
      sum-quiet is_received (λ i. between) n refl (λ i l. refl),
    );
    full = omega (
      arith,
      sum-quiet is_written (λ i. between) n refl (λ i l. refl),
      sum-quiet is_fetching (λ i. between) n refl (λ i l. refl),
    );
  }

module _ {size n : ℕ} (few : size < 2 ^ 32) (some_slots : 0 < size) where
  Reach-Inv :
      {s : System} {ins outs : List ℕ}
      → Reach size n s ins outs
      → (pending : List ℕ) × Inv size n s pending × (ins ≡ outs ++ pending)
  Reach-Inv start = ([], init-Inv size n few some_slots, refl)
  Reach-Inv (later {s} {ins} {outs} r i lt mv) =
      let (pending, inv, e) = Reach-Inv r in
      let (pending', inv', e') = Move-Next inv i lt mv in
      (
        pending',
        inv',
        ap (λ l. l ++ sent mv) e
            ∙ append_assoc outs pending (sent mv)
            ∙ ap (λ l. outs ++ l) e'
            ∙ sym (append_assoc outs (read mv) pending'),
      )

  -- A mailbox of `size` slots, 0 < size < 2 ^ 32: whatever its tasks do, and in whatever order, the
  -- mails that were written are those that were read, in the same order, and then at most `size`
  -- mails that are still in the mailbox. So none is lost, overwritten, read twice or read before it
  -- is written.
  pub Reach-fifo :
      {s : System} {ins outs : List ℕ}
      → Reach size n s ins outs
      → (pending : List ℕ) × (ins ≡ outs ++ pending)
        × (length pending ≤ size)
        × (window s.box.buffer size s.box.rpos (length pending) ≡ pending)
  Reach-fifo r =
      let (pending, inv, e) = Reach-Inv r in (pending, e, omega (arith, inv.free), inv.ring)

  -- A mailbox of `size` slots, 0 < size < 2 ^ 32, in which no task is in the middle of a call: the
  -- value of `mails` is the number of mails that were written and not read, and the value of
  -- `boxes` is the number of the other slots.
  pub Reach-quiet :
      {s : System} {ins outs : List ℕ}
      → Reach size n s ins outs
      → ((i : ℕ) → i < n → s.pc i ≡ between)
      → (length ins ≡ length outs + s.box.mails) × (s.box.mails + s.box.boxes ≡ size)
  Reach-quiet {s} {ins} {outs} r quiet =
      let (pending, inv, e) = Reach-Inv r in
      let held : length ins ≡ length outs + length pending =
        ap length e ∙ length-append outs pending in
      let count = λ (w : Pc → ℕ). λ (z : w between ≡ 0). sum-quiet w s.pc n z quiet in
      (
        omega (arith, inv.full, count is_written refl, count is_fetching refl),
        omega (
          arith,
          inv.full,
          inv.free,
          count is_written refl,
          count is_fetching refl,
          count is_posting refl,
          count is_received refl,
        ),
      )
