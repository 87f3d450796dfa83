-- ===== src/Syscall.antt =====
-- The dispatch of system calls: src/syscall.c with the table that the build makes of src/syscall.tbl, src/libstd.c,
-- src/sys_listsyscall.c and src/sys_xxxhandler.c. What these print is left out.
use waguri.Base.{ℕ, Option, ◌==◌, if◌then◌else◌, Run, ok, ◌>>=◌, defined}
use waguri.Mm.{Caller}
use waguri.Sysmem.{ScRegs, sys_memmap}
use waguri.Machine.{System, process_at, caller_of, put_caller}
use waguri.Kill.{sys_killall}

-- A call of a memory function on behalf of the process at an address
unfoldable pub on_memory : System → ℕ → (Caller → Run (ℕ × Caller)) → Run (ℕ × System)
unfolding process_at put_caller
on_memory sys addr call = do
  proc ← process_at sys addr
  (code, caller) ← call (caller_of sys proc)
  ok (code, put_caller sys addr proc caller)

-- `__sys_listsyscall` and `__sys_ni_syscall`
abbrev pub sys_listsyscall : System → Run (ℕ × System)
sys_listsyscall sys = ok (0, sys)

abbrev pub sys_ni_syscall : System → Run (ℕ × System)
sys_ni_syscall sys = ok (0, sys)

-- `__sys_xxxhandler`, which prints the first register
abbrev pub sys_xxxhandler : System → ScRegs → Run (ℕ × System)
sys_xxxhandler sys regs = do a1 ← defined regs.a1; ok (0, sys)

-- The registers are those of the caller's stack frame, which nobody reads after the call.
abbrev pub memmap_code : Caller → ScRegs → Run (ℕ × Caller)
memmap_code caller regs = do (code, regs', caller') ← sys_memmap caller regs; ok (code, caller')

-- `syscall` by the process at `addr`
unfoldable pub syscall : System → ℕ → ℕ → ScRegs → Run (ℕ × System)
unfolding on_memory sys_killall
syscall sys addr nr regs =
    if nr == 0
    then sys_listsyscall sys
    else if nr == 17
    then on_memory sys addr (λ caller. memmap_code caller regs)
    else if nr == 101
    then (do memrg ← defined regs.a1; sys_killall sys addr memrg)
    else if nr == 440
    then sys_xxxhandler sys regs
    else sys_ni_syscall sys

-- `libsyscall`; an argument that the loader did not read is `none`.
unfoldable pub libsyscall : System → ℕ → ℕ → Option ℕ → Option ℕ → Option ℕ → Run (ℕ × System)
libsyscall sys addr syscall_idx a1 a2 a3 =
    syscall sys addr syscall_idx (record { a1 = a1; a2 = a2; a3 = a3 })
