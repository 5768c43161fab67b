-- ===== src/Signals/Frame.antt =====
-- arch/x86_64/kernel/signal.c: how `_signal_irq_handler` lays a call of a signal handler into the
-- control flow of a task. The memory is a map from the addresses of aligned 64-bit words. The field
-- number `i` of a `struct state` at `p` is the word at `p + 8 * i`.
use libhermit.Base.{
  ℕ, zero, suc, ◌+◌, ◌-◌, ◌*◌, ◌%◌, ◌^◌, List, [], ◌∷◌, ltb, if◌then◌else◌, update,
}

abbrev pub Words : Type 0
Words = ℕ → ℕ

-- The number of fields of `struct state`, and the places of those that are used by name.
abbrev pub state_words : ℕ
state_words = 25

abbrev pub rdi : ℕ
rdi = 10

abbrev pub rsp : ℕ
rsp = 13

abbrev pub int_no : ℕ
int_no = 18

abbrev pub rip : ℕ
rip = 20

abbrev pub userrsp : ℕ
userrsp = 23

abbrev pub field : ℕ → ℕ → ℕ
field p i = p + 8 * i

-- `memcpy` of `n` words; source and destination do not overlap.
unfoldable pub copy_words : ℕ → ℕ → ℕ → Words → Words
copy_words zero dst src m = m
copy_words (suc n) dst src m = update (copy_words n dst src m) (field dst n) (m (field src n))

-- A pointer of type `size_t*` moved down by `n` words.
abbrev pub words_below : ℕ → ℕ → ℕ
words_below p n = (p + 2 ^ 64 - 8 * n) % 2 ^ 64

-- A 32-bit `int` as a `uint64_t`.
abbrev pub extend : ℕ → ℕ
extend signum = if ltb signum (2 ^ 31) then signum else signum + 2 ^ 64 - 2 ^ 32

-- The registers of the frame at `p` that make the processor run the handler.
abbrev pub call_handler : ℕ → ℕ → ℕ → ℕ → Words → Words
call_handler p stack handler signum m =
    let m1 = update m (field p rsp) stack in
    let m2 = update m1 (field p userrsp) (m1 (field p rsp)) in
    update (update m2 (field p rdi) (extend signum)) (field p rip) handler

-- The state is on the stack of the task: a second one is made below it. The result is the new stack
-- pointer of the task.
unfoldable pub inject_below : ℕ → ℕ → ℕ → ℕ → ℕ → Words → ℕ × Words
unfolding copy_words
inject_below epilog task_state stack handler signum m =
    let sighandler_rsp = words_below stack 1 in
    let m1 = update m sighandler_rsp epilog in
    let frame = words_below sighandler_rsp state_words in
    (
      frame,
      call_handler frame sighandler_rsp handler signum (copy_words state_words frame task_state m1),
    )

-- The state is on an interrupt stack: it is copied to the stack of the task and used for the
-- handler.
unfoldable pub inject_here : ℕ → ℕ → ℕ → ℕ → Words → Words
unfolding copy_words
inject_here epilog task_state handler signum m =
    let stack = words_below (m (field task_state rsp)) state_words in
    let m1 = copy_words state_words stack task_state m in
    let sighandler_rsp = words_below stack 1 in
    call_handler task_state sighandler_rsp handler signum (update m1 sighandler_rsp epilog)

-- arch/x86_64/kernel/entry.asm: the instructions of `sighandler_epilog`. A register is named by its
-- place in `struct state`; `pop rflags` is `popfq`.
pub data Instr : Type 0 where
  add_rsp pop jmp_at : ℕ → Instr

unfoldable pub sighandler_epilog : List Instr
sighandler_epilog =
    add_rsp 16
    ∷ pop 2
    ∷ pop 3
    ∷ pop 4
    ∷ pop 5
    ∷ pop 6
    ∷ pop 7
    ∷ pop 8
    ∷ pop 9
    ∷ pop 10
    ∷ pop 11
    ∷ pop 12
    ∷ add_rsp 8
    ∷ pop 14
    ∷ pop 15
    ∷ pop 16
    ∷ pop 17
    ∷ add_rsp 32
    ∷ pop 22
    ∷ add_rsp 16
    ∷ jmp_at 40
    ∷ []

-- `jmp_at n` is `jmp [rsp - n]`.
unfoldable pub exec : List Instr → Words → Words → Words
exec [] m cpu = cpu
exec (Instr.add_rsp n ∷ is) m cpu = exec is m (update cpu rsp (cpu rsp + n))
exec (Instr.pop r ∷ is) m cpu = exec is m (update (update cpu r (m (cpu rsp))) rsp (cpu rsp + 8))
exec (Instr.jmp_at n ∷ is) m cpu = exec is m (update cpu rip (m (cpu rsp - n)))
