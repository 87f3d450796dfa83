-- ===== src/Cpu/Advance.antt =====
-- What a call of `run` does to the process that it runs, and to the others.
use waguri.Base.{
  ℕ, ◌%◌, ◌<◌, ◌≡◌, sym, ap, Bool-cases, inl, inr, ◌==◌, lt→leb, get_elem?, Run, ok, >>=-eq-ok,
  ok-injective, defined,
}
use waguri.Mm.{Caller}
use waguri.Libmem.{liballoc, libfree}
use waguri.PageAccess.{libwrite}
use waguri.Sysmem.{ScRegs}
use waguri.Machine.{Opcode, Inst, Process, System, process_at, put_process, caller_of}
use waguri.Syscall.{on_memory, memmap_code, sys_ni_syscall, syscall, libsyscall}
use waguri.Cpu.{read_code, execute, stepped, run}
use waguri.Cpu.Code.{SameCode-refl, AllSame, AllSame-refl, put_caller-AllSame, sys_killall-AllSame}

on_memory-AllSame :
    (sys : System) (addr : ℕ) (call : Caller → Run (ℕ × Caller)) {code : ℕ} {sys' : System}
    → on_memory sys addr call ≡ ok (code, sys')
    → AllSame sys sys'
unfolding on_memory
on_memory-AllSame sys addr call ran =
    let (proc, here, ran₁) = >>=-eq-ok (process_at sys addr) _ ran in
    let ((c, caller), called, ran₂) = >>=-eq-ok (call (caller_of sys proc)) _ ran₁ in
    rw (sym (ap (λ r. r.1) (ok-injective ran₂)))
      (put_caller-AllSame sys addr proc proc caller here (SameCode-refl proc))

syscall-AllSame :
    (sys : System) (addr nr : ℕ) (regs : ScRegs) {code : ℕ} {sys' : System}
    → syscall sys addr nr regs ≡ ok (code, sys')
    → AllSame sys sys'
unfolding syscall
syscall-AllSame sys addr nr regs {code} {sys'} ran = elim (Bool-cases (nr == 0)) [
  | inl e ↦ idle (simp e at ran)
  | inr e ↦ elim (Bool-cases (nr == 17)) [
    | inl e₁ ↦ on_memory-AllSame sys addr (λ caller. memmap_code caller regs) (simp (e, e₁) at ran)
    | inr e₁ ↦ elim (Bool-cases (nr == 101)) [
      | inl e₂ ↦
          let (memrg, a, ran₁) = >>=-eq-ok (defined regs.a1) _ (simp (e, e₁, e₂) at ran) in
          sys_killall-AllSame sys addr memrg ran₁
      | inr e₂ ↦ elim (Bool-cases (nr == 440)) [
        | inl e₃ ↦
            let (a1, a, ran₁) = >>=-eq-ok (defined regs.a1) _ (simp (e, e₁, e₂, e₃) at ran) in
            idle ran₁
        | inr e₃ ↦ idle (simp (e, e₁, e₂, e₃) at ran)
      ]
    ]
  ]
]
  where
    idle : sys_ni_syscall sys ≡ ok (code, sys') → AllSame sys sys'
    idle ran = rw (sym (ap (λ r. r.1) (ok-injective ran))) (AllSame-refl sys)

execute-AllSame :
    (op : Opcode) (sys : System) (addr : ℕ) (ins : Inst) {code : ℕ} {sys' : System}
    → execute op sys addr ins ≡ ok (code, sys')
    → AllSame sys sys'
unfolding execute libsyscall
execute-AllSame Opcode.calc sys addr ins ran =
    rw (sym (ap (λ r. r.1) (ok-injective ran))) (AllSame-refl sys)
execute-AllSame Opcode.alloc sys addr ins ran =
    let (size, a, ran₁) = >>=-eq-ok (defined ins.arg_0) _ ran in
    let (reg_index, b, ran₂) = >>=-eq-ok (defined ins.arg_1) _ ran₁ in
    on_memory-AllSame sys addr (λ caller. liballoc caller size reg_index) ran₂
execute-AllSame Opcode.free sys addr ins ran =
    let (reg_index, a, ran₁) = >>=-eq-ok (defined ins.arg_0) _ ran in
    on_memory-AllSame sys addr (λ caller. libfree caller reg_index) ran₁
execute-AllSame Opcode.read sys addr ins ran =
    let (source, a, ran₁) = >>=-eq-ok (defined ins.arg_0) _ ran in
    let (offset, b, ran₂) = >>=-eq-ok (defined ins.arg_1) _ ran₁ in
    on_memory-AllSame sys addr (λ caller. read_code caller source offset) ran₂
execute-AllSame Opcode.write sys addr ins ran =
    let (data_arg, a, ran₁) = >>=-eq-ok (defined ins.arg_0) _ ran in
    let (destination, b, ran₂) = >>=-eq-ok (defined ins.arg_1) _ ran₁ in
    let (offset, c, ran₃) = >>=-eq-ok (defined ins.arg_2) _ ran₂ in
    on_memory-AllSame sys addr (λ caller. libwrite caller (data_arg % 256) destination offset) ran₃
execute-AllSame Opcode.syscall sys addr ins ran =
    let (idx, a, ran₁) = >>=-eq-ok (defined ins.arg_0) _ ran in
    syscall-AllSame sys addr idx (record { a1 = ins.arg_1; a2 = ins.arg_2; a3 = ins.arg_3 }) ran₁

-- A call of `run` that ends moves the program counter of its process by one, whatever the instruction
-- was and whether or not it succeeded, while the process has instructions left. It never changes the
-- code of any process, nor the program counter of another.
pub run-AllSame :
    (sys : System) (addr : ℕ) (proc : Process) {code : ℕ} {sys' : System}
    → process_at sys addr ≡ ok proc
    → proc.pc < proc.code_size
    → run sys addr ≡ ok (code, sys')
    → AllSame (put_process sys addr (stepped proc)) sys'
unfolding run
run-AllSame sys addr proc here lt ran =
    let (ins, fetched, ran₁) =
      >>=-eq-ok (defined (get_elem? proc.text proc.pc)) _
        (simp (here, lt→leb proc.code_size proc.pc lt) at ran) in
    execute-AllSame ins.opcode (put_process sys addr (stepped proc)) addr ins ran₁
