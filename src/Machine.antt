-- ===== src/Machine.antt =====
-- The whole machine that the threads of src/os.c share: the scheduler, the devices, and the process
-- control blocks of include/common.h, at the addresses that the queues hold.
use waguri.Base.{
  ℕ, Bool, true, false, ◌&&◌, Option, some, List, [], ◌∷◌, ◌==◌, if◌then◌else◌, get_elem?, set, Run,
  ◌>>=◌, defined,
}
use waguri.Memphy.{Memphy}
use waguri.Mm.{Mm, Caller}
use waguri.Sched.{Sched}

-- `enum ins_opcode_t`
pub data Opcode : Type 0 where
  calc alloc free read write syscall : Opcode

-- `struct inst_t`; an argument is `none` until the loader reads it.
pub record Inst : Type 0 where
  pub opcode : Opcode
  pub arg_0 : Option ℕ
  pub arg_1 : Option ℕ
  pub arg_2 : Option ℕ
  pub arg_3 : Option ℕ

-- `struct pcb_t`, without the pointers to queues, which are those to the scheduler's variables, the
-- priority, which is in Pcb, and `page_table`, which is an argument in Mem. `path` is its text up to the byte 0, `text` and `code_size` are those of `code`;
-- `mm` is the address space, which exists from before the process enters a queue.
pub record Process : Type 0 where
  pub pid : ℕ
  pub path : List ℕ
  pub text : List Inst
  pub code_size : ℕ
  pub pc : ℕ
  pub regs : List (Option ℕ)
  pub bp : ℕ
  pub mm : Mm
  pub active_mswp : ℕ
  pub active_mswp_id : ℕ

-- `none` in `procs` is a block that was freed.
pub record System : Type 0 where
  pub sched : Sched
  pub mram : Memphy
  pub mswp : List Memphy
  pub procs : List (Option Process)

-- `*proc`
unfoldable pub process_at : System → ℕ → Run Process
process_at sys addr = do block ← defined (get_elem? sys.procs addr); defined block

unfoldable pub put_process : System → ℕ → Process → System
put_process sys addr p = record sys { procs = set sys.procs addr (some p) }

-- What the memory functions see of a process and of the devices, and what they change.
abbrev pub caller_of : System → Process → Caller
caller_of sys p = record {
  mm = p.mm;
  mram = sys.mram;
  mswp = sys.mswp;
  active_mswp = p.active_mswp;
  active_mswp_id = p.active_mswp_id;
}

unfoldable pub put_caller : System → ℕ → Process → Caller → System
unfolding put_process
put_caller sys addr p caller =
    put_process (record sys { mram = caller.mram; mswp = caller.mswp }) addr
      (record p { mm = caller.mm })

-- The text of a buffer, up to its first byte 0
abbrev pub c_text : List ℕ → List ℕ
c_text [] = []
c_text (c ∷ cs) = let rest = c_text cs in if c == 0 then [] else c ∷ rest

-- `strcmp(s, t) == 0`
unfoldable pub same_text : List ℕ → List ℕ → Bool
same_text [] [] = true
same_text [] (d ∷ ds) = false
same_text (c ∷ cs) [] = false
same_text (c ∷ cs) (d ∷ ds) = c == d && same_text cs ds
