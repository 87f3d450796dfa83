-- ===== src/World/Instructions.antt =====
-- What a call of `run` of src/cpu.c does to the levels of the scheduler and to the blocks: it puts no
-- process on a level, and frees no block.
use waguri.Base.{
  ℕ, ◌%◌, ◌≡◌, inl, inr, sym, ap, ◌∙◌, eq_or_ne, some, List, ◌==◌, Bool-cases, get_elem?,
  get_elem?-set_self, get_elem?-set_ne, lt_of_get_elem?, Run, ok, >>=-eq-ok, ok-injective, defined,
  lt_or_ge, lt→leb, le→leb,
}
use waguri.Mm.{Caller}
use waguri.Libmem.{liballoc, libfree}
use waguri.PageAccess.{libwrite}
use waguri.Sysmem.{ScRegs}
use waguri.Sched.{Pcb}
use waguri.Sched.Levels.{Hold}
use waguri.Machine.{Opcode, Inst, Process, System, process_at, put_process, caller_of, put_caller}
use waguri.Syscall.{on_memory, memmap_code, sys_ni_syscall, syscall, libsyscall}
use waguri.Cpu.{read_code, execute, stepped, run}
use waguri.Cpu.Advance.{run-AllSame}
use waguri.World.Shrink.{Fewer, same-Fewer, sys_killall-Fewer}

on_memory-Fewer :
    (sys : System) (addr : ℕ) (call : Caller → Run (ℕ × Caller)) {xss : List (List Pcb)} {code : ℕ}
    {sys' : System}
    → Hold sys.sched.mlq_ready_queue xss
    → on_memory sys addr call ≡ ok (code, sys')
    → Fewer xss sys'.sched.mlq_ready_queue
unfolding on_memory put_caller put_process
on_memory-Fewer sys addr call h ran =
    let (proc, here, ran₁) = >>=-eq-ok (process_at sys addr) _ ran in
    let ((c, caller), called, ran₂) = >>=-eq-ok (call (caller_of sys proc)) _ ran₁ in
    same-Fewer (ap (λ r. r.1.sched.mlq_ready_queue) (ok-injective ran₂)) h

syscall-Fewer :
    (sys : System) (addr nr : ℕ) (regs : ScRegs) {xss : List (List Pcb)} {code : ℕ} {sys' : System}
    → Hold sys.sched.mlq_ready_queue xss
    → syscall sys addr nr regs ≡ ok (code, sys')
    → Fewer xss sys'.sched.mlq_ready_queue
unfolding syscall
syscall-Fewer sys addr nr regs {xss} {code} {sys'} h ran = elim (Bool-cases (nr == 0)) [
  | inl e ↦ idle (simp e at ran)
  | inr e ↦ elim (Bool-cases (nr == 17)) [
    | inl e₁ ↦ on_memory-Fewer sys addr (λ caller. memmap_code caller regs) h (simp (e, e₁) at ran)
    | inr e₁ ↦ elim (Bool-cases (nr == 101)) [
      | inl e₂ ↦
          let (memrg, a, ran₁) = >>=-eq-ok (defined regs.a1) _ (simp (e, e₁, e₂) at ran) in
          sys_killall-Fewer sys addr memrg h ran₁
      | inr e₂ ↦ elim (Bool-cases (nr == 440)) [
        | inl e₃ ↦
            let (a1, a, ran₁) = >>=-eq-ok (defined regs.a1) _ (simp (e, e₁, e₂, e₃) at ran) in
            idle ran₁
        | inr e₃ ↦ idle (simp (e, e₁, e₂, e₃) at ran)
      ]
    ]
  ]
]
  where
    idle : sys_ni_syscall sys ≡ ok (code, sys') → Fewer xss sys'.sched.mlq_ready_queue
    idle ran = same-Fewer (ap (λ r. r.1.sched.mlq_ready_queue) (ok-injective ran)) h

execute-Fewer :
    (op : Opcode) (sys : System) (addr : ℕ) (ins : Inst) {xss : List (List Pcb)} {code : ℕ}
    {sys' : System}
    → Hold sys.sched.mlq_ready_queue xss
    → execute op sys addr ins ≡ ok (code, sys')
    → Fewer xss sys'.sched.mlq_ready_queue
unfolding execute libsyscall
execute-Fewer Opcode.calc sys addr ins h ran =
    same-Fewer (ap (λ r. r.1.sched.mlq_ready_queue) (ok-injective ran)) h
execute-Fewer Opcode.alloc sys addr ins h ran =
    let (size, a, ran₁) = >>=-eq-ok (defined ins.arg_0) _ ran in
    let (reg_index, b, ran₂) = >>=-eq-ok (defined ins.arg_1) _ ran₁ in
    on_memory-Fewer sys addr (λ caller. liballoc caller size reg_index) h ran₂
execute-Fewer Opcode.free sys addr ins h ran =
    let (reg_index, a, ran₁) = >>=-eq-ok (defined ins.arg_0) _ ran in
    on_memory-Fewer sys addr (λ caller. libfree caller reg_index) h ran₁
execute-Fewer Opcode.read sys addr ins h ran =
    let (source, a, ran₁) = >>=-eq-ok (defined ins.arg_0) _ ran in
    let (offset, b, ran₂) = >>=-eq-ok (defined ins.arg_1) _ ran₁ in
    on_memory-Fewer sys addr (λ caller. read_code caller source offset) h ran₂
execute-Fewer Opcode.write sys addr ins h ran =
    let (data_arg, a, ran₁) = >>=-eq-ok (defined ins.arg_0) _ ran in
    let (destination, b, ran₂) = >>=-eq-ok (defined ins.arg_1) _ ran₁ in
    let (offset, c, ran₃) = >>=-eq-ok (defined ins.arg_2) _ ran₂ in
    on_memory-Fewer sys addr (λ caller. libwrite caller (data_arg % 256) destination offset) h ran₃
execute-Fewer Opcode.syscall sys addr ins h ran =
    let (idx, a, ran₁) = >>=-eq-ok (defined ins.arg_0) _ ran in
    syscall-Fewer sys addr idx (record { a1 = ins.arg_1; a2 = ins.arg_2; a3 = ins.arg_3 }) h ran₁

-- Every block that exists in the first still exists in the second.
abbrev pub Present : System → System → Type 0
Present sys sys' =
    (a : ℕ) (p : Process)
    → get_elem? sys.procs a ≡ some (some p)
    → (q : Process) × (get_elem? sys'.procs a ≡ some (some q))

put_process-Present :
    (sys : System) (addr : ℕ) (new : Process) → Present sys (put_process sys addr new)
unfolding put_process
put_process-Present sys addr new a p e = elim (eq_or_ne addr a) [
  | inl eq ↦ (
    new,
    rw (sym eq)
        (get_elem?-set_self sys.procs addr (some new) (rw eq (lt_of_get_elem? sys.procs a e))),
  )
  | inr ne ↦ (p, get_elem?-set_ne sys.procs addr a (some new) ne ∙ e)
]

pub run-Fewer :
    (sys : System) (addr : ℕ) {xss : List (List Pcb)} {code : ℕ} {sys' : System}
    → Hold sys.sched.mlq_ready_queue xss
    → run sys addr ≡ ok (code, sys')
    → Fewer xss sys'.sched.mlq_ready_queue × Present sys sys'
unfolding run put_process
run-Fewer sys addr {xss} {code} {sys'} h ran =
    let (proc, here, ran₁) = >>=-eq-ok (process_at sys addr) _ ran in
    elim (lt_or_ge proc.pc proc.code_size) [
      | inl lt ↦
          let (ins, fetched, ran₂) =
            >>=-eq-ok (defined (get_elem? proc.text proc.pc)) _
              (simp (lt→leb proc.code_size proc.pc lt) at ran₁) in
          let all = run-AllSame sys addr proc here lt ran in
          (
            execute-Fewer ins.opcode (put_process sys addr (stepped proc)) addr ins h ran₂,
            λ a p e.
                let (q, e') = put_process-Present sys addr (stepped proc) a p e in
                let (r, e'', same) = all.at a q e' in (r, e''),
          )
      | inr ge ↦
          let e = ap (λ r. r.1) (ok-injective (simp (le→leb proc.code_size proc.pc ge) at ran₁)) in
          (same-Fewer (ap (λ r. r.sched.mlq_ready_queue) e) h, λ a p at. (p, rw (sym e) at))
    ]
