-- ===== src/Signals/Resume.antt =====
-- The task calls its handler, and goes on as if it had not been interrupted.
use libhermit.Base.{
  ℕ, ◌+◌, ◌-◌, ◌^◌, ◌≤◌, ◌<◌, ◌≡◌, ◌⊎◌, sym, ap, ◌∙◌, true, false, [], ◌∷◌, arith, mem, subst,
  update,
}
use libhermit.Signals.Frame.{
  Words, field, rdi, rsp, rip, userrsp, extend, words_below, copy_words, call_handler, inject_here,
  inject_below, sighandler_epilog, exec,
}
use libhermit.Signals.Copy.{copy-inside, copy-outside, restored, exec-restored, exec-rsp}

-- The frame at `p` of `m'` runs the handler: with the signal as its argument, on the stack below
-- `saved`, from where it returns to the epilog; its other fields are those of the frame at `old` of
-- `m`.
pub record Calls (m m' : Words) (old p saved epilog handler signum : ℕ) : Type 0 where
  pub runs : m' (field p rip) ≡ handler
  pub argument : m' (field p rdi) ≡ extend signum
  pub stack : m' (field p rsp) ≡ saved - 8
  pub user_stack : m' (field p userrsp) ≡ saved - 8
  pub returns_to : m' (saved - 8) ≡ epilog
  pub others :
      (i : ℕ)
      → i < 25
      → mem i (rdi ∷ rsp ∷ rip ∷ userrsp ∷ []) ≡ false
      → m' (field p i) ≡ m (field old i)

-- The registers of the processor are those of the frame at `old`, and the stack pointer is `top`.
pub record Resumed (m cpu : Words) (old top : ℕ) : Type 0 where
  pub registers : (i : ℕ) → mem i restored ≡ true → cpu i ≡ m (field old i)
  pub stack : cpu rsp ≡ top

restored-lt : (i : ℕ) → mem i restored ≡ true → i < 25
restored-lt i h = ground arith

epilog-Resumed :
    (m later cpu : Words) (saved old : ℕ)
    → cpu rsp ≡ saved
    → ((i : ℕ) → i < 25 → later (field saved i) ≡ m (field old i))
    → Resumed m (exec sighandler_epilog later cpu) old (saved + 200)
epilog-Resumed m later cpu saved old e h = record {
  registers =
      λ i r. exec-restored later cpu i r ∙ ap (λ p. later (field p i)) e ∙ h i (restored-lt i r);
  stack = exec-rsp later cpu ∙ ap (λ p. p + 200) e;
}

-- `call_handler` on a frame that does not cover the return address.
call_handler-Calls :
    (m m1 : Words) (old p saved epilog handler signum : ℕ)
    → 8 ≤ saved
    → (p + 200 ≤ saved - 8) ⊎ (saved ≤ p)
    → m1 (saved - 8) ≡ epilog
    → ((i : ℕ) → i < 25 → m1 (field p i) ≡ m (field old i))
    → Calls m (call_handler p (saved - 8) handler signum m1) old p saved epilog handler signum
call_handler-Calls m m1 old p saved epilog handler signum l apart e h = record {
  runs = ground arith;
  argument = ground arith;
  stack = ground arith;
  user_stack = ground arith;
  returns_to = ground arith;
  others = λ i b n. ground (arith, h i);
}

call_handler-outside :
    (p stack handler signum : ℕ) (m : Words) (a : ℕ)
    → (a < p) ⊎ (p + 200 ≤ a)
    → call_handler p stack handler signum m a ≡ m a
call_handler-outside p stack handler signum m a o = ground arith

module _ (m : Words) (epilog handler signum saved : ℕ) (deep : 208 ≤ saved)
    (top : saved + 200 < 2 ^ 64) where
  one_below : words_below saved 1 ≡ saved - 8
  one_below = omega (arith, deep, top)

  module _ (s : ℕ) (top_rsp : m (field s rsp) ≡ saved + 200)
      (apart : (s + 200 ≤ saved - 8) ⊎ (saved + 200 ≤ s)) where
    state_below : words_below (m (field s rsp)) 25 ≡ saved
    state_below = ap (λ p. words_below p 25) top_rsp ∙ omega (arith, top)

    abbrev with_copy : Words
    with_copy = update (copy_words 25 saved s m) (saved - 8) epilog

    inject_here-eq :
        inject_here epilog s handler signum m ≡ call_handler s (saved - 8) handler signum with_copy
    unfolding inject_here
    inject_here-eq =
        ap
          (λ p.
            call_handler s (words_below p 1) handler signum
              (update (copy_words 25 p s m) (words_below p 1) epilog))
          state_below
        ∙ ap (λ q. call_handler s q handler signum (update (copy_words 25 saved s m) q epilog))
            one_below

    with_copy-same : (i : ℕ) → i < 25 → with_copy (field s i) ≡ m (field s i)
    with_copy-same i b = ground (arith, copy-outside 25 saved s m (field s i))

    with_copy-saved : (i : ℕ) → i < 25 → with_copy (field saved i) ≡ m (field s i)
    with_copy-saved i b = ground (arith, copy-inside 25 saved s m i b)

    here-saved :
        (i : ℕ) → i < 25 → inject_here epilog s handler signum m (field saved i) ≡ m (field s i)
    here-saved i b =
        ap (λ (w : Words). w (field saved i)) inject_here-eq
        ∙ call_handler-outside s (saved - 8) handler signum with_copy (field saved i) (ground arith)
        ∙ with_copy-saved i b

    here-Calls : Calls m (inject_here epilog s handler signum m) s s saved epilog handler signum
    here-Calls =
        subst (λ (w : Words). Calls m w s s saved epilog handler signum) (sym inject_here-eq)
          (call_handler-Calls m with_copy s s saved epilog handler signum (omega arith)
            (ground arith) (ground arith) with_copy-same)

    -- For a task whose state stands at `s` on an interrupt stack, with a stack pointer `saved +
    -- 200` that leaves room for 208 bytes, and below it no part of that state. The frame at `s` now
    -- runs the handler with the signal, on the task's stack, from where it returns to
    -- `sighandler_epilog`. Whatever memory and registers the handler leaves, if it returns with the
    -- stack pointer in place and the saved state as it was: the epilog restores the interrupted
    -- task's registers but `fs` and `gs`, its flags and its stack pointer, and continues where it
    -- was interrupted.
    pub inject_here-resumes :
        (later cpu : Words)
        → cpu rsp ≡ saved
        → ((i : ℕ)
            → i < 25
            → later (field saved i) ≡ inject_here epilog s handler signum m (field saved i))
        → Calls m (inject_here epilog s handler signum m) s s saved epilog handler signum
          × Resumed m (exec sighandler_epilog later cpu) s (m (field s rsp))
    inject_here-resumes later cpu e kept = (
      here-Calls,
      subst (λ (t : ℕ). Resumed m (exec sighandler_epilog later cpu) s t) (sym top_rsp)
          (epilog-Resumed m later cpu saved s e (λ i b. kept i b ∙ here-saved i b)),
    )

  abbrev frame : ℕ
  frame = saved - 208

  abbrev with_frame : Words
  with_frame = copy_words 25 frame saved (update m (saved - 8) epilog)

  inject_below-eq :
      inject_below epilog saved saved handler signum m
      ≡ (frame, call_handler frame (saved - 8) handler signum with_frame)
  unfolding inject_below
  inject_below-eq =
      ap
        (λ q. (
          words_below q 25,
          call_handler (words_below q 25) q handler signum
              (copy_words 25 (words_below q 25) saved (update m q epilog)),
        ))
        one_below
      ∙ ap
          (λ q. (
            q,
            call_handler q (saved - 8) handler signum
                (copy_words 25 q saved (update m (saved - 8) epilog)),
          ))
          frame_at
    where
      frame_at : words_below (saved - 8) 25 ≡ frame
      frame_at = omega (arith, deep, top)

  with_frame-same : (i : ℕ) → i < 25 → with_frame (field frame i) ≡ m (field saved i)
  with_frame-same i b = ground (arith, copy-inside 25 frame saved (update m (saved - 8) epilog) i b)

  below-saved :
      (i : ℕ)
      → i < 25
      → (inject_below epilog saved saved handler signum m).1 (field saved i) ≡ m (field saved i)
  below-saved i b =
      ap (λ (r : ℕ × Words). r.1 (field saved i)) inject_below-eq
      ∙ call_handler-outside frame (saved - 8) handler signum with_frame (field saved i)
          (ground arith)
      ∙ copy-outside 25 frame saved (update m (saved - 8) epilog) (field saved i) (ground arith)
      ∙ ground arith

  below-Calls :
      (r : ℕ × Words)
      → r ≡ (frame, call_handler frame (saved - 8) handler signum with_frame)
      → Calls m r.1 saved r.0 saved epilog handler signum
  below-Calls r e =
      subst (λ (w : ℕ × Words). Calls m w.1 saved w.0 saved epilog handler signum) (sym e)
        (call_handler-Calls m with_frame saved frame saved epilog handler signum (omega arith)
          (ground arith)
          (copy-outside 25 frame saved (update m (saved - 8) epilog) (saved - 8) (ground arith)
            ∙ ground arith)
          with_frame-same)

  -- For a task whose state stands at `saved` on its own stack, with 208 bytes below it: the result
  -- is the address of a second frame that runs the handler with the signal, and returns to
  -- `sighandler_epilog`. Whatever memory and registers the handler leaves, if it returns with the
  -- stack pointer in place and the saved state as it was: the epilog restores the registers of that
  -- state but `fs` and `gs`, with its flags, continues at its instruction pointer, and the state is
  -- off the stack.
  pub inject_below-resumes :
      (later cpu : Words)
      → cpu rsp ≡ saved
      → ((i : ℕ)
          → i < 25
          → later (field saved i)
            ≡ (inject_below epilog saved saved handler signum m).1 (field saved i))
      → let r = inject_below epilog saved saved handler signum m in
        Calls m r.1 saved r.0 saved epilog handler signum
        × Resumed m (exec sighandler_epilog later cpu) saved (saved + 200)
  inject_below-resumes later cpu e kept = (
    below-Calls (inject_below epilog saved saved handler signum m) inject_below-eq,
    epilog-Resumed m later cpu saved saved e (λ i b. kept i b ∙ below-saved i b),
  )
