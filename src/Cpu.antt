-- ===== src/Cpu.antt =====
-- The processor of src/cpu.c, as it is compiled with MM_PAGING.
pub mod Code
pub mod Advance
pub mod Access
use waguri.Base.{
  ℕ, ◌+◌, ◌%◌, ◌^◌, Option, none, some, List, get_elem?, leb, if◌then◌else◌, Run, ok, fault, ◌>>=◌,
  defined,
}
use waguri.Mm.{Caller}
use waguri.Libmem.{liballoc, libfree}
use waguri.PageAccess.{libread, libwrite}
use waguri.Machine.{Opcode, Inst, Process, System, process_at, put_process}
use waguri.Syscall.{on_memory, libsyscall}

-- `libread` with a pointer to the copy of the instruction, which is gone after the call
abbrev pub read_code : Caller → ℕ → ℕ → Run (ℕ × Caller)
read_code caller source offset = do
  (code, stored, caller') ← libread caller source offset
  ok (code, caller')

-- The `switch` of `run`
unfoldable pub execute : Opcode → System → ℕ → Inst → Run (ℕ × System)
unfolding on_memory libsyscall
execute Opcode.calc sys addr ins = ok (0, sys)
execute Opcode.alloc sys addr ins = do
  size ← defined ins.arg_0
  reg_index ← defined ins.arg_1
  on_memory sys addr (λ caller. liballoc caller size reg_index)
execute Opcode.free sys addr ins = do
  reg_index ← defined ins.arg_0
  on_memory sys addr (λ caller. libfree caller reg_index)
execute Opcode.read sys addr ins = do
  source ← defined ins.arg_0
  offset ← defined ins.arg_1
  on_memory sys addr (λ caller. read_code caller source offset)
execute Opcode.write sys addr ins = do
  data_arg ← defined ins.arg_0
  destination ← defined ins.arg_1
  offset ← defined ins.arg_2
  on_memory sys addr (λ caller. libwrite caller (data_arg % 256) destination offset)
execute Opcode.syscall sys addr ins = do
  syscall_idx ← defined ins.arg_0
  libsyscall sys addr syscall_idx ins.arg_1 ins.arg_2 ins.arg_3

-- `proc->pc++`
abbrev pub stepped : Process → Process
stepped proc = record proc { pc = (proc.pc + 1) % 2 ^ 32 }

-- `run` of the process at `addr`
unfoldable pub run : System → ℕ → Run (ℕ × System)
unfolding process_at put_process execute
run sys addr = do
  proc ← process_at sys addr
  let fetch = (do
    ins ← defined (get_elem? proc.text proc.pc)
    execute ins.opcode (put_process sys addr (stepped proc)) addr ins)
  if leb proc.code_size proc.pc then ok (1, sys) else fetch
