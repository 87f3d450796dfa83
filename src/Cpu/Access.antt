-- ===== src/Cpu/Access.antt =====
-- What a READ instruction leaves.
use waguri.Base.{
  ℕ, ◌<◌, ◌≡◌, refl, ap, arith, some, Chain, get_elem?, set-set, get_elem?-set_self,
  lt_of_get_elem?, lt→leb, Run, ok,
}
use waguri.Pte.{fpn_of, offst_of, phyaddr}
use waguri.Mm.{Region, Vma, Caller}
use waguri.PageAccess.{region_addr}
use waguri.PageAccess.Present.{InRam}
use waguri.PageAccess.Region.{HasRegion, libread-InRam}
use waguri.Machine.{Opcode, Inst, Process, System, process_at, put_process, caller_of, put_caller}
use waguri.Syscall.{on_memory}
use waguri.Cpu.{stepped, read_code, execute, run}

-- A call that leaves the memory of the process and the devices as they are leaves the system.
on_memory-same :
    (sys : System) (addr code : ℕ) (old new : Process) (call : Caller → Run (ℕ × Caller))
    → process_at sys addr ≡ ok old
    → call (caller_of sys new) ≡ ok (code, caller_of sys new)
    → on_memory (put_process sys addr new) addr call ≡ ok (code, put_process sys addr new)
unfolding on_memory put_process put_caller process_at
on_memory-same sys addr code old new call here same =
    let at : get_elem? sys.procs addr ≡ some (some old) = ground (arith, here) in
    rw (get_elem?-set_self sys.procs addr (some new) (lt_of_get_elem? sys.procs addr at), same)
      (ap (λ procs. ok (code, record sys { procs = procs }))
        (set-set sys.procs addr (some new) (some new)))

-- A READ instruction of a byte of a region whose page is in memory succeeds and moves the program
-- counter, and nothing else of the system changes: the byte that it read is nowhere, whatever the
-- destination that the instruction names.
pub run-read :
    (sys : System) (addr source offset value pte : ℕ) (proc : Process) (ins : Inst) (rg : Region)
    (v : Vma) (rest : Chain Vma)
    → process_at sys addr ≡ ok proc
    → proc.pc < proc.code_size
    → get_elem? proc.text proc.pc ≡ some ins
    → ins.opcode ≡ Opcode.read
    → ins.arg_0 ≡ some source
    → ins.arg_1 ≡ some offset
    → value < 256
    → HasRegion (caller_of sys proc) source rg v rest
    → InRam (caller_of sys proc) (region_addr rg offset) pte
    → get_elem? sys.mram.storage (phyaddr (fpn_of pte) (offst_of (region_addr rg offset)))
      ≡ some value
    → run sys addr ≡ ok (0, put_process sys addr (stepped proc))
unfolding run execute
run-read sys addr source offset value pte proc ins rg v rest here left fetched op a0 a1 small r i
      at =
    let got = libread-InRam (caller_of sys proc) source offset value pte rg v rest small r i at in
    let call : read_code (caller_of sys proc) source offset ≡ ok (0, caller_of sys proc) =
      rw got refl in
    let done =
      on_memory-same sys addr 0 proc (stepped proc) (λ caller. read_code caller source offset) here
        call in
    rw (here, lt→leb proc.code_size proc.pc left, fetched, op, a0, a1, done) refl
