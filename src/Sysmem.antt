-- ===== src/Sysmem.antt =====
-- The system call 17 of src/sys_mem.c, on the registers of include/syscall.h that it uses.
-- `none` is a register that nobody has written.
pub mod Calls
use waguri.Base.{ℕ, ◌%◌, Option, none, some, ◌==◌, if◌then◌else◌, Run, ok, ◌>>=◌, defined}
use waguri.Cint.{sext_char}
use waguri.Memphy
use waguri.Mm.{Caller}
use waguri.Vm.{inc_vma_limit, mm_swap_page}

pub record ScRegs : Type 0 where
  pub a1 : Option ℕ
  pub a2 : Option ℕ
  pub a3 : Option ℕ

abbrev pub sysmem_map_op : ℕ
sysmem_map_op = 1

abbrev pub sysmem_inc_op : ℕ
sysmem_inc_op = 2

abbrev pub sysmem_swp_op : ℕ
sysmem_swp_op = 3

abbrev pub sysmem_io_read : ℕ
sysmem_io_read = 4

abbrev pub sysmem_io_write : ℕ
sysmem_io_write = 5

-- `regs->a3 = value`, where a failed read leaves `value` as it was
abbrev pub extended : Option ℕ → Option ℕ
extended none = none
extended (some v) = some (sext_char v)

-- `__sys_memmap`
unfoldable pub sys_memmap : Caller → ScRegs → Run (ℕ × ScRegs × Caller)
sys_memmap caller regs = do
  memop ← defined regs.a1
  if memop == sysmem_map_op
      then ok (0, regs, caller)
      else if memop == sysmem_inc_op
      then (do
        vmaid ← defined regs.a2
        inc_sz ← defined regs.a3
        (code, caller') ← inc_vma_limit caller vmaid inc_sz
        ok (0, regs, caller'))
      else if memop == sysmem_swp_op
      then (do
        vicfpn ← defined regs.a2
        swpfpn ← defined regs.a3
        (code, caller') ← mm_swap_page caller vicfpn swpfpn
        ok (0, regs, caller'))
      else if memop == sysmem_io_read
      then (do
        addr ← defined regs.a2
        (code, value, mram) ← Memphy.read caller.mram addr
        ok (0, record regs { a3 = extended value }, record caller { mram = mram }))
      else if memop == sysmem_io_write
      then (do
        addr ← defined regs.a2
        value ← defined regs.a3
        (code, mram) ← Memphy.write caller.mram addr (value % 256)
        ok (0, regs, record caller { mram = mram }))
      else ok (0, regs, caller)
