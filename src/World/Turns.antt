-- ===== src/World/Turns.antt =====
-- What a turn of a processor's thread of src/os.c does to who holds which process.
use waguri.Base.{
  ℕ, ◌+◌, ◌≤◌, ◌<◌, ◌≡◌, inl, inr, refl, sym, ◌∙◌, arith, eq_or_ne, Option, none, some, List, ◌==◌,
  Bool-cases, if-cases, get_elem?, get_elem?-set_ne, ok, >>=-eq-ok, ok-injective,
}
use mathlib.Core.Path.{subst}
use waguri.Cint.{sadd, minus}
use waguri.Sched.{Pcb, Sched, put_proc}
use waguri.Sched.Levels.{Hold}
use waguri.Machine.{Process, System, process_at}
use waguri.Cpu.{run}
use waguri.Os.{Turn, Cpu, take_proc, without_block, recheck, first_load, turn_body, cpu_turn}
use waguri.World.Counts.{once, on_cpu, waiting, once_self}
use waguri.World.Levels.{get_proc-Hold, put_proc-Hold}
use waguri.World.Shrink.{Fewer, same-Fewer}
use waguri.World.Instructions.{Present, run-Fewer}

-- `held` counts how often each address is on a processor. An address is on one level or on one
-- processor, once, and its block exists.
pub record Fine (sys : System) (held : ℕ → ℕ) : Type 0 where
  pub levels : List (List Pcb)
  pub holds : Hold sys.sched.mlq_ready_queue levels
  pub unique : (a : ℕ) → waiting a levels + held a ≤ 1
  pub blocks :
      (a : ℕ)
      → 0 < waiting a levels + held a
      → (p : Process) × (get_elem? sys.procs a ≡ some (some p))

-- Fewer processes are held, and no block is freed.
pub Fine-less :
    {sys sys' : System} {held held' : ℕ → ℕ} (f : Fine sys held)
    → Fewer f.levels sys'.sched.mlq_ready_queue
    → Present sys sys'
    → ((a : ℕ) → held' a ≤ held a)
    → Fine sys' held'
Fine-less f less present le = record {
  levels = less.levels;
  holds = less.holds;
  unique = λ a. omega (arith, f.unique a, less.fewer a, le a);
  blocks = λ a lt. let (p, e) = f.blocks a (omega (arith, less.fewer a, le a)) in present a p e;
}

pub Fine-held :
    {sys : System} {held held' : ℕ → ℕ}
    → Fine sys held
    → ((a : ℕ) → held' a ≤ held a)
    → Fine sys held'
Fine-held f le = Fine-less f (same-Fewer refl f.holds) (λ a p e. (p, e)) le

pub take_proc-Fine :
    {sys : System} {others : ℕ → ℕ} {next : Option Pcb} {sys' : System}
    → Fine sys others
    → take_proc sys ≡ ok (next, sys')
    → Fine sys' (λ a. on_cpu a next + others a)
unfolding take_proc
take_proc-Fine {sys} {others} f ran =
    let (next, s, xss, got, h, same) = get_proc-Hold sys.sched f.holds in
    let taken : Fine (record sys { sched = s }) (λ a. on_cpu a next + others a) = record {
      levels = xss;
      holds = h;
      unique = λ a. omega (arith, same a, f.unique a);
      blocks = λ a lt. f.blocks a (omega (arith, same a));
    } in
    subst (λ r. Fine r.1 (λ a. on_cpu a r.0 + others a)) (ok-injective (simp got at ran)) taken

-- The levels and the blocks stay as they are.
pub put_back-Fine :
    {sys : System} {others : ℕ → ℕ} (p : Pcb) {s : Sched}
    → Fine sys (λ a. once a p + others a)
    → put_proc sys.sched p ≡ ok s
    → Fine (record sys { sched = s }) others
put_back-Fine {sys} p f ran =
    let (xss, h, le) = put_proc-Hold sys.sched p f.holds ran in
    record {
      levels = xss;
      holds = h;
      unique = λ a. omega (arith, le a, f.unique a);
      blocks = λ a lt. f.blocks a (omega (arith, le a));
    }

pub without_block-Fine :
    {sys : System} {others : ℕ → ℕ} (p : Pcb)
    → Fine sys (λ a. once a p + others a)
    → Fine (without_block sys p.addr) others
without_block-Fine {sys} p f = record {
  levels = f.levels;
  holds = f.holds;
  unique = λ a. omega (arith, f.unique a);
  blocks = λ a lt. elim (eq_or_ne p.addr a) [
    | inl e ↦
        let one : once a p ≡ 1 = rw (sym e) (once_self p) in absurd (omega (arith, f.unique a, one))
    | inr ne ↦
        let (proc, at) = f.blocks a (omega arith) in
        (proc, get_elem?-set_ne sys.procs p.addr a none ne ∙ at)
  ];
}

recheck-Fine :
    (others : ℕ → ℕ) (time_slot done : ℕ) {sys : System} (next : Option Pcb) (left : ℕ)
    {turn : Turn} {sys' : System} {cpu : Cpu}
    → Fine sys (λ a. on_cpu a next + others a)
    → recheck time_slot done sys next left ≡ ok (turn, sys', cpu)
    → Fine sys' (λ a. on_cpu a cpu.proc + others a)
unfolding recheck
recheck-Fine others time_slot done {sys} none left {turn} {sys'} {cpu} f ran =
    elim (Bool-cases (done == 0)) [
      | inl e ↦ ended (ok-injective (simp e at ran))
      | inr e ↦ ended (ok-injective (simp e at ran))
    ]
  where
    ended :
        {t : Turn}
        → ◌≡◌ {A = Turn × System × Cpu}
            (t, sys, record { proc = none; time_left = left })
            (turn, sys', cpu)
        → Fine sys' (λ a. on_cpu a cpu.proc + others a)
    ended e = subst (λ r. Fine r.1 (λ a. on_cpu a r.2.proc + others a)) e f
recheck-Fine others time_slot done {sys} (some p) left f ran =
    let ((code, sys₁), ran₁, rest) = >>=-eq-ok (run sys p.addr) _ ran in
    let (left', counted, rest₁) = >>=-eq-ok (sadd _ (minus 1)) _ rest in
    let (less, present) = run-Fewer sys p.addr f.holds ran₁ in
    subst (λ r. Fine r.1 (λ a. on_cpu a r.2.proc + others a)) (ok-injective rest₁)
      (Fine-less f less present (λ a. omega arith))

turn_body-Fine :
    (others : ℕ → ℕ) (time_slot done : ℕ) {sys : System} (proc : Option Pcb) (left : ℕ)
    {turn : Turn} {sys' : System} {cpu : Cpu}
    → Fine sys (λ a. on_cpu a proc + others a)
    → turn_body time_slot done sys proc left ≡ ok (turn, sys', cpu)
    → Fine sys' (λ a. on_cpu a cpu.proc + others a)
unfolding turn_body first_load recheck
turn_body-Fine others time_slot done {sys} none left f ran =
    let ((next, sys₁), took, rest) = >>=-eq-ok (take_proc sys) _ ran in
    first next (take_proc-Fine (Fine-held f (λ a. omega arith)) took) rest
  where
    first :
        (next : Option Pcb) {s : System} {turn : Turn} {sys' : System} {cpu : Cpu}
        → Fine s (λ a. on_cpu a next + others a)
        → first_load time_slot done s next left ≡ ok (turn, sys', cpu)
        → Fine sys' (λ a. on_cpu a cpu.proc + others a)
    first none f ran =
        subst (λ r. Fine r.1 (λ a. on_cpu a r.2.proc + others a)) (ok-injective ran) f
    first (some p) f ran = recheck-Fine others time_slot done (some p) left f ran
turn_body-Fine others time_slot done {sys} (some p) left f ran =
    let (proc, here, rest) = >>=-eq-ok (process_at sys p.addr) _ ran in
    elim (if-cases (proc.pc == proc.code_size) _ _ rest) [
      | inl (e, rest₁) ↦
          let ((next, sys₁), took, rest₂) =
            >>=-eq-ok (take_proc (without_block sys p.addr)) _ rest₁ in
          recheck-Fine others time_slot done next 0 (take_proc-Fine (without_block-Fine p f) took)
            rest₂
      | inr (e, rest₁) ↦ elim (if-cases (left == 0) _ _ rest₁) [
        | inl (e₁, rest₂) ↦
            let (s, put, rest₃) = >>=-eq-ok (put_proc sys.sched p) _ rest₂ in
            let ((next, sys₁), took, rest₄) =
              >>=-eq-ok (take_proc (record sys { sched = s })) _ rest₃ in
            recheck-Fine others time_slot done next left
              (take_proc-Fine (put_back-Fine p f put) took) rest₄
        | inr (e₁, rest₂) ↦ recheck-Fine others time_slot done (some p) left f rest₂
      ]
    ]

-- A turn of a processor: it may give its process back, free it, or take another one, and what the
-- other processors hold stays theirs.
pub cpu_turn-Fine :
    (others : ℕ → ℕ) (time_slot done : ℕ) {sys : System} (cpu : Cpu) {turn : Turn} {sys' : System}
    {cpu' : Cpu}
    → Fine sys (λ a. on_cpu a cpu.proc + others a)
    → cpu_turn time_slot done sys cpu ≡ ok (turn, sys', cpu')
    → Fine sys' (λ a. on_cpu a cpu'.proc + others a)
unfolding cpu_turn
cpu_turn-Fine others time_slot done cpu f ran =
    turn_body-Fine others time_slot done cpu.proc cpu.time_left f ran
