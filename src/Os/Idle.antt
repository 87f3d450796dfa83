-- ===== src/Os/Idle.antt =====
-- When a processor's thread of src/os.c ends.
use waguri.Base.{
  ℕ, ◌≡◌, ◌≢◌, refl, ap, arith, Bool-cases, inl, inr, Option, none, some, List, ◌==◌, if-cases,
  if◌then◌else◌, ok, >>=-eq-ok, ok-injective,
}
use waguri.Cint.{sadd, minus}
use waguri.Sched.{Pcb, put_proc}
use waguri.Sched.Levels.{Hold, Idle}
use waguri.Sched.Policy.{get_proc-Idle}
use waguri.Machine.{System, process_at}
use waguri.Cpu.{run}
use waguri.Os.{
  Turn, slept, stopped, Cpu, take_proc, without_block, recheck, first_load, turn_body, cpu_turn,
}

pub take_proc-Idle :
    (sys : System) (xss : List (List Pcb))
    → Hold sys.sched.mlq_ready_queue xss
    → Idle xss
    → take_proc sys ≡ ok (none, sys)
unfolding take_proc
take_proc-Idle sys xss h idle = rw (get_proc-Idle sys.sched xss h idle) refl

-- A processor that has no process and finds none waits for the next slot and changes nothing,
-- also when `done` says that no process will come any more.
pub cpu_turn-Idle :
    (time_slot done time_left : ℕ) (sys : System) (xss : List (List Pcb))
    → Hold sys.sched.mlq_ready_queue xss
    → Idle xss
    → cpu_turn time_slot done sys (record { proc = none; time_left = time_left })
      ≡ ok (slept, sys, record { proc = none; time_left = time_left })
unfolding cpu_turn turn_body first_load
cpu_turn-Idle time_slot done time_left sys xss h idle = rw (take_proc-Idle sys xss h idle) refl

recheck-stopped :
    (time_slot done : ℕ) (sys : System) (proc : Option Pcb) (time_left : ℕ) {turn : Turn}
    {sys' : System} {cpu' : Cpu}
    → recheck time_slot done sys proc time_left ≡ ok (turn, sys', cpu')
    → turn ≡ stopped
    → (proc ≡ none) × (done ≢ 0)
unfolding recheck
recheck-stopped time_slot done sys none time_left ran stop = elim (Bool-cases (done == 0)) [
  | inl e ↦ ground (arith, ap (λ r. r.0) (ok-injective (simp e at ran)), stop)
  | inr e ↦ (refl, λ z. ground (arith, e, z))
]
recheck-stopped time_slot done sys (some p) time_left ran stop =
    let ((code, next), ran_code, ran₁) = >>=-eq-ok (run sys p.addr) _ ran in
    let (left, counted, ran₂) =
      >>=-eq-ok (sadd (if time_left == 0 then time_slot else time_left) (minus 1)) _ ran₁ in
    ground (arith, ap (λ r. r.0) (ok-injective ran₂), stop)

first_load-slept :
    (time_slot done : ℕ) (sys : System) (next : Option Pcb) (time_left : ℕ) {turn : Turn}
    {sys' : System} {cpu' : Cpu}
    → first_load time_slot done sys next time_left ≡ ok (turn, sys', cpu')
    → turn ≢ stopped
unfolding first_load
first_load-slept time_slot done sys none time_left ran stop =
    ground (arith, ap (λ r. r.0) (ok-injective ran), stop)
first_load-slept time_slot done sys (some q) time_left ran stop =
    ground (arith, (recheck-stopped time_slot done sys (some q) time_left ran stop).0)

turn_body-stopped :
    (time_slot done : ℕ) (sys : System) (proc : Option Pcb) (time_left : ℕ) {sys' : System}
    {cpu' : Cpu}
    → turn_body time_slot done sys proc time_left ≡ ok (stopped, sys', cpu')
    → ((p : Pcb) × (proc ≡ some p)) × (done ≢ 0)
unfolding turn_body
turn_body-stopped time_slot done sys none time_left ran =
    let ((next, sys₁), taken, ran₁) = >>=-eq-ok (take_proc sys) _ ran in
    absurd (first_load-slept time_slot done sys₁ next time_left ran₁ refl)
turn_body-stopped time_slot done sys (some p) time_left ran =
    let (proc, here, ran₁) = >>=-eq-ok (process_at sys p.addr) _ ran in
    (
      (p, refl),
      elim (if-cases (proc.pc == proc.code_size) _ _ ran₁) [
        | inl (f, ran₂) ↦
            let ((next, sys₁), taken, ran₃) =
              >>=-eq-ok (take_proc (without_block sys p.addr)) _ ran₂ in
            (recheck-stopped time_slot done sys₁ next 0 ran₃ refl).1
        | inr (f, ran₂) ↦ elim (if-cases (time_left == 0) _ _ ran₂) [
          | inl (g, ran₃) ↦
              let (sched, put, ran₄) = >>=-eq-ok (put_proc sys.sched p) _ ran₃ in
              let ((next, sys₁), taken, ran₅) =
                >>=-eq-ok (take_proc (record sys { sched = sched })) _ ran₄ in
              (recheck-stopped time_slot done sys₁ next time_left ran₅ refl).1
          | inr (g, ran₃) ↦ (recheck-stopped time_slot done sys (some p) time_left ran₃ refl).1
        ]
      ],
    )

-- A turn that ends the thread started with a process, and `done` was set: a processor whose process
-- went before `done` was set, or that never had one, does not stop.
pub cpu_turn-stopped :
    (time_slot done : ℕ) (sys : System) (cpu : Cpu) {sys' : System} {cpu' : Cpu}
    → cpu_turn time_slot done sys cpu ≡ ok (stopped, sys', cpu')
    → ((p : Pcb) × (cpu.proc ≡ some p)) × (done ≢ 0)
unfolding cpu_turn
cpu_turn-stopped time_slot done sys cpu ran =
    turn_body-stopped time_slot done sys cpu.proc cpu.time_left ran
