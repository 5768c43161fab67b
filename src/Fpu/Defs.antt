-- ===== src/Fpu/Defs.antt =====
-- kernel/tasks.c, `fpu_handler`; arch/x86_64/kernel/isrs.c, `arch_fpu_handler`; the switch to
-- another task in arch/x86_64/kernel/entry.asm. The contents of the registers are one value.
-- `initial` is what `fpu_init` writes; saving and restoring copy the value.
use libhermit.Base.{ℕ, ◌≡◌, ◌≢◌, Bool, true, false, ◌==◌, if◌then◌else◌, update}
use libhermit.Sched.{Kernel, set_queue, make_current, clean_up}

-- `area` is the field `fpu` of the tasks, `used` and `inited` are TASK_FPU_USED and TASK_FPU_INIT
-- of their flags. `regs` and `switched` are the registers of a core and the bit TS of its `cr0`:
-- when it is set, an instruction of the FPU raises the exception that `arch_fpu_handler` handles.
pub record Fpu : Type 0 where
  pub kernel : Kernel
  pub area : ℕ → ℕ
  pub used : ℕ → Bool
  pub inited : ℕ → Bool
  pub regs : ℕ → ℕ
  pub switched : ℕ → Bool

abbrev pub owner : ℕ → Fpu → ℕ
owner core f = (f.kernel.readyqueues core).fpu_owner

abbrev pub current : ℕ → Fpu → ℕ
current core f = f.kernel.current_task core

abbrev pub set_owner : ℕ → ℕ → Fpu → Fpu
set_owner core id f = record f {
  kernel = set_queue f.kernel core (record (f.kernel.readyqueues core) { fpu_owner = id });
}

-- The first use of the FPU by a task.
abbrev pub prepare : ℕ → ℕ → Fpu → Fpu
prepare initial id f =
    let g = record f { used = update f.used id true } in
    if f.inited id
    then g
    else record g { area = update f.area id initial; inited = update f.inited id true }

-- The registers belong to another task, or to none, whose number is 0.
abbrev pub save_owner : ℕ → Fpu → Fpu
save_owner core f =
    let o = owner core f in
    if o == 0
    then f
    else record f { area = update f.area o (f.regs core); used = update f.used o false }

unfoldable pub fpu_handler : ℕ → ℕ → Fpu → Fpu
fpu_handler initial core f =
    let id = current core f in
    let g = prepare initial id f in
    if owner core g == id
    then g
    else (let h = set_owner core id (save_owner core g) in
        record h { regs = update h.regs core (h.area id) })

unfoldable pub arch_fpu_handler : ℕ → ℕ → Fpu → Fpu
unfolding fpu_handler
arch_fpu_handler initial core f =
    fpu_handler initial core (record f { switched = update f.switched core false })

-- `common_switch`, when `scheduler` has chosen the task `id`.
abbrev pub switch_to : ℕ → ℕ → Fpu → Fpu
switch_to core id f = record f {
  kernel = make_current core id f.kernel;
  switched = update f.switched core true;
}

-- What happens to the FPU of core `core`. The idle task 0 does not use it.
pub data Move (initial core : ℕ) (f : Fpu) : Fpu → Type 0 where
  -- an instruction leaves `x` in the registers
  compute :
      (x : ℕ)
      → f.switched core ≡ false
      → current core f ≢ 0
      → Move initial core f (record f { regs = update f.regs core x })
  trap :
      f.switched core ≡ true
      → current core f ≢ 0
      → Move initial core f (arch_fpu_handler initial core f)
  switch : (id : ℕ) → Move initial core f (switch_to core id f)
  -- `finish_task_switch` cleans up the task `id`
  finish :
      (id : ℕ)
      → id ≢ current core f
      → Move initial core f (record f { kernel = clean_up core id f.kernel })
