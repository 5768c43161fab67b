-- ===== src/Mailbox/Inv.antt =====
-- The invariant of a mailbox, and that every step keeps it.
use libhermit.Base.{
  ℕ, suc, ◌+◌, ◌-◌, ◌%◌, ◌^◌, ◌≤◌, ◌<◌, ◌≡◌, refl, sym, ap, ◌∙◌, List, [], ◌∷◌, ◌++◌, arith, ltb,
  if◌then◌else◌, length, get_or, set, length-set, length-append, update, sum, sum-update, sum-ge,
  ring_step, window, ahead, ahead-eq, window-push, mod-ring_step,
}
use libhermit.Mailbox.Defs.{
  Mailbox, Pc, between, posting, written, fetching, received, Move, take_box, busy, put, post_mail,
  take_mail, no_mail, get, post_box, sent, read, System,
}

-- 1 for a task at that place.
abbrev pub is_posting : Pc → ℕ
is_posting (posting _) = 1
is_posting _ = 0

abbrev pub is_written : Pc → ℕ
is_written written = 1
is_written _ = 0

abbrev pub is_fetching : Pc → ℕ
is_fetching fetching = 1
is_fetching _ = 0

abbrev pub is_received : Pc → ℕ
is_received (received _) = 1
is_received _ = 0

-- From `rpos` on, the slots hold the mails `pending`; every free slot has a box, and every mail a
-- count of `mails`, unless a task is about to give it back or has taken it.
pub record Inv (size n : ℕ) (s : System) (pending : List ℕ) : Type 0 where
  pub small : size < 2 ^ 32
  pub slots : length s.box.buffer ≡ size
  pub rpos_in : s.box.rpos < size
  pub ring : window s.box.buffer size s.box.rpos (length pending) ≡ pending
  pub wpos_at : s.box.wpos ≡ (
      if ltb (s.box.rpos + length pending) size
      then s.box.rpos + length pending
      else s.box.rpos + length pending - size)
  pub free : s.box.boxes + sum is_posting s.pc n + sum is_received s.pc n + length pending ≡ size
  pub full : s.box.mails + sum is_written s.pc n + sum is_fetching s.pc n ≡ length pending

abbrev pub stepped : System → ℕ → Mailbox → Pc → System
stepped s i m p = record { box = m; pc = update s.pc i p }

-- What a step makes of the pending mails: written ones come last, read ones were first.
abbrev pub Next : ℕ → ℕ → System → List ℕ → List ℕ → List ℕ → Type 0
Next size n s pending ins outs =
    (pending' : List ℕ) × Inv size n s pending' × (pending ++ ins ≡ outs ++ pending')

append-nil : (xs : List ℕ) → xs ++ [] ≡ xs
append-nil [] = refl
append-nil (x ∷ xs) = ap (λ l. x ∷ l) (append-nil xs)

module _ (s : System) {n : ℕ} (i : ℕ) (lt : i < n) {q : Pc} (e : s.pc i ≡ q) where
  -- How many tasks are where, after the step.
  tally : (w : Pc → ℕ) (p : Pc) → sum w (update s.pc i p) n + w q ≡ sum w s.pc n + w p
  tally w p = omega (arith, sum-update w s.pc n i p lt, ap w e)

  some_at : (w : Pc → ℕ) → w q ≤ sum w s.pc n
  some_at w = omega (arith, sum-ge w s.pc n i lt, ap w e)

module _ {size n : ℕ} {s : System} {pending : List ℕ} (inv : Inv size n s pending) (i : ℕ)
    (lt : i < n) {q : Pc} (e : s.pc i ≡ q) where
  -- A step that changes only the semaphores.
  tokens-Next :
      (mails boxes : ℕ) (p : Pc)
      → boxes + is_posting p + is_received p ≡ s.box.boxes + is_posting q + is_received q
      → mails + is_written p + is_fetching p ≡ s.box.mails + is_written q + is_fetching q
      → Next size n (stepped s i (record s.box { mails = mails; boxes = boxes }) p) pending [] []
  tokens-Next mails boxes p b m = (
    pending,
    record {
      small = inv.small;
      slots = inv.slots;
      rpos_in = inv.rpos_in;
      ring = inv.ring;
      wpos_at = inv.wpos_at;
      free = omega (arith, inv.free, tally s i lt e is_posting p, tally s i lt e is_received p);
      full = omega (arith, inv.full, tally s i lt e is_written p, tally s i lt e is_fetching p);
    },
    append-nil pending,
  )

  put-Next :
      (mail : ℕ)
      → q ≡ posting mail
      → Next size n
          (stepped s i
            (record s.box {
              buffer = set s.box.buffer s.box.wpos mail;
              wpos = (s.box.wpos + 1) % size;
            })
            written)
          pending
          (mail ∷ [])
          []
  put-Next mail at =
      let room : length pending < size =
        omega (arith, inv.free, some_at s i lt e is_posting, ap is_posting at) in
      let here : s.box.wpos ≡ ahead size s.box.rpos (length pending) =
        ground (arith, inv.wpos_at, ahead-eq size s.box.rpos (length pending) inv.rpos_in room) in
      let longer : length (pending ++ mail ∷ []) ≡ suc (length pending) =
        omega (arith, length-append pending (mail ∷ [])) in
      (
        pending ++ mail ∷ [],
        record {
          small = inv.small;
          slots = length-set s.box.buffer s.box.wpos mail ∙ inv.slots;
          rpos_in = inv.rpos_in;
          ring =
              ap (λ k. window (set s.box.buffer s.box.wpos mail) size s.box.rpos k) longer
              ∙ ap (λ j. window (set s.box.buffer j mail) size s.box.rpos (suc (length pending)))
                  here
              ∙ window-push s.box.buffer size mail s.box.rpos (length pending)
                  (omega (arith, inv.slots)) inv.rpos_in room
              ∙ ap (λ l. l ++ mail ∷ []) inv.ring;
          wpos_at = ground (arith, longer, inv.wpos_at, inv.rpos_in, mod-ring_step size s.box.wpos);
          free = omega (
            arith,
            inv.free,
            longer,
            tally s i lt e is_posting written,
            tally s i lt e is_received written,
            ap is_posting at,
            ap is_received at,
          );
          full = omega (
            arith,
            inv.full,
            longer,
            tally s i lt e is_written written,
            tally s i lt e is_fetching written,
            ap is_written at,
            ap is_fetching at,
          );
        },
        refl,
      )

module _ {size n : ℕ} {s : System} (i : ℕ) (lt : i < n) (e : s.pc i ≡ fetching) where
  get-Next :
      (pending : List ℕ)
      → Inv size n s pending
      → Next size n
          (stepped s i
            (record s.box { rpos = (s.box.rpos + 1) % size })
            (received (get_or s.box.buffer s.box.rpos 0)))
          pending
          []
          (get_or s.box.buffer s.box.rpos 0 ∷ [])
  get-Next [] inv = absurd (omega (arith, inv.full, some_at s i lt e is_fetching))
  get-Next (x ∷ xs) inv =
      let mail = get_or s.box.buffer s.box.rpos 0 in
      let first : mail ≡ x = heads inv.ring in
      let next : (s.box.rpos + 1) % size ≡ ring_step size s.box.rpos =
        mod-ring_step size s.box.rpos inv.rpos_in in
      (
        xs,
        record {
          small = inv.small;
          slots = inv.slots;
          rpos_in = ground (arith, next, inv.rpos_in);
          ring = ap (λ r. window s.box.buffer size r (length xs)) next ∙ tails inv.ring;
          wpos_at = ground (arith, next, inv.wpos_at, inv.rpos_in, inv.free);
          free = omega (
            arith,
            inv.free,
            tally s i lt e is_posting (received mail),
            tally s i lt e is_received (received mail),
          );
          full = omega (
            arith,
            inv.full,
            tally s i lt e is_written (received mail),
            tally s i lt e is_fetching (received mail),
          );
        },
        ap (λ l. x ∷ l) (append-nil xs) ∙ ap (λ y. y ∷ xs) (sym first),
      )
    where
      heads : {a b : ℕ} {us vs : List ℕ} → a ∷ us ≡ b ∷ vs → a ≡ b
      heads h = cc

      tails : {a b : ℕ} {us vs : List ℕ} → a ∷ us ≡ b ∷ vs → us ≡ vs
      tails h = cc

module _ {size n : ℕ} {s : System} {pending : List ℕ} (inv : Inv size n s pending) (i : ℕ)
    (lt : i < n) where
  wrap : (k : ℕ) → k < size → (k + 1) % 2 ^ 32 ≡ k + 1
  wrap k l = omega (arith, inv.small)

  moved-Next :
      {m : Mailbox} {q p : Pc}
      → s.pc i ≡ q
      → (mv : Move size s.box q m p) → Next size n (stepped s i m p) pending (sent mv) (read mv)
  moved-Next e (take_box mail b) =
      tokens-Next inv i lt e s.box.mails (s.box.boxes - 1) (posting mail) (omega arith) refl
  moved-Next e (busy z) = tokens-Next inv i lt e s.box.mails s.box.boxes between refl refl
  moved-Next e (put {mail}) = put-Next inv i lt e mail refl
  moved-Next e post_mail =
      let l : s.box.mails < size = omega (arith, inv.full, inv.free, some_at s i lt e is_written) in
      tokens-Next inv i lt e ((s.box.mails + 1) % 2 ^ 32) s.box.boxes between refl
        (omega (arith, wrap s.box.mails l))
  moved-Next e (take_mail b) =
      tokens-Next inv i lt e (s.box.mails - 1) s.box.boxes fetching refl (omega arith)
  moved-Next e (no_mail z) = tokens-Next inv i lt e s.box.mails s.box.boxes between refl refl
  moved-Next e get = get-Next i lt e pending inv
  moved-Next e (post_box {mail}) =
      let l : s.box.boxes < size = omega (arith, inv.free, some_at s i lt e is_received) in
      tokens-Next inv i lt e s.box.mails ((s.box.boxes + 1) % 2 ^ 32) between
        (omega (arith, wrap s.box.boxes l)) refl

  -- Every step keeps the invariant.
  pub Move-Next :
      {m : Mailbox} {p : Pc} (mv : Move size s.box (s.pc i) m p)
      → Next size n (stepped s i m p) pending (sent mv) (read mv)
  Move-Next mv = moved-Next refl mv
