-- ===== src/Os/Slice.antt =====
-- The time slices that a processor's thread of src/os.c gives to processes.
use waguri.Base.{
  ℕ, zero, suc, ◌+◌, ◌-◌, ◌%◌, ◌^◌, ◌≤◌, ◌<◌, ◌≡◌, ◌≢◌, refl, sym, ap, ◌∙◌, arith, some, List, ≢→==,
  lt→leb, get_elem?, set, set-set, set-same, get_elem?-set_self, lt_of_get_elem?, Run, ok, ◌>>=◌,
}
use waguri.Cint.{sadd-minus_one}
use waguri.Queue.Bounded.{Holds, push}
use waguri.Sched.{Pcb, Sched}
use waguri.Sched.Levels.{Hold, First}
use waguri.Sched.Policy.{get_proc-First, put_proc-add_proc}
use waguri.Machine.{Opcode, Inst, Process, System, process_at, put_process}
use waguri.Cpu.{stepped, execute, run}
use waguri.Os.{slept, stopped, Cpu, take_proc, recheck, turn_body, cpu_turn}

-- The next instruction of a process, which is a `calc`.
pub record AtCalc (proc : Process) : Type 0 where
  pub left : proc.pc < proc.code_size
  pub ins : Inst
  pub fetched : get_elem? proc.text proc.pc ≡ some ins
  pub calc : ins.opcode ≡ Opcode.calc

pub run-AtCalc :
    (sys : System) (addr : ℕ) (proc : Process)
    → process_at sys addr ≡ ok proc
    → AtCalc proc
    → run sys addr ≡ ok (0, put_process sys addr (stepped proc))
unfolding run execute
run-AtCalc sys addr proc here c =
    rw (here, lt→leb proc.code_size proc.pc c.left, c.fetched, c.calc) refl

-- Turns of a processor, one after the other, as long as its thread goes on.
unfoldable pub turns : ℕ → ℕ → ℕ → System → Cpu → Run (System × Cpu)
turns time_slot done zero sys cpu = ok (sys, cpu)
turns time_slot done (suc k) sys cpu = do
  (turn, sys', cpu') ← cpu_turn time_slot done sys cpu
  elim turn [ slept ↦ turns time_slot done k sys' cpu' | stopped ↦ ok (sys', cpu') ]

abbrev pub on : Pcb → ℕ → Cpu
on p left = record { proc = some p; time_left = left }

abbrev pub later : Process → ℕ → Process
later proc k = record proc { pc = proc.pc + k }

-- A turn within the slice runs one instruction and takes one off the slice.
turn-AtCalc :
    (time_slot done left : ℕ) (sys : System) (p : Pcb) (proc : Process)
    → process_at sys p.addr ≡ ok proc
    → AtCalc proc
    → 0 < left
    → left < 2 ^ 31
    → cpu_turn time_slot done sys (on p left)
      ≡ ok (slept, put_process sys p.addr (stepped proc), on p (left - 1))
unfolding cpu_turn turn_body recheck
turn-AtCalc time_slot done left sys p proc here c pos small =
    rw
      (
        here,
        ≢→== proc.pc proc.code_size (λ e. omega (arith, c.left)),
        ≢→== left 0 (λ e. omega arith),
        run-AtCalc sys p.addr proc here c,
        sadd-minus_one left pos small,
      )
      refl

put_process-here :
    (sys : System) (addr : ℕ) (old new : Process)
    → process_at sys addr ≡ ok old
    → process_at (put_process sys addr new) addr ≡ ok new
unfolding put_process process_at
put_process-here sys addr old new here =
    let at : get_elem? sys.procs addr ≡ some (some old) = ground (arith, here) in
    rw (get_elem?-set_self sys.procs addr (some new) (lt_of_get_elem? sys.procs addr at)) refl

put_process-same :
    (sys : System) (addr : ℕ) (proc : Process)
    → process_at sys addr ≡ ok proc
    → put_process sys addr proc ≡ sys
unfolding put_process process_at
put_process-same sys addr proc here =
    let at : get_elem? sys.procs addr ≡ some (some proc) = ground (arith, here) in
    ap (λ procs. record sys { procs = procs }) (set-same sys.procs addr at)

put_process-twice :
    (sys : System) (addr : ℕ) (old new : Process)
    → put_process (put_process sys addr old) addr new ≡ put_process sys addr new
unfolding put_process
put_process-twice sys addr old new =
    ap (λ procs. record sys { procs = procs }) (set-set sys.procs addr (some old) (some new))

later-at : (proc : Process) (m n : ℕ) → proc.pc + m ≡ n → later proc m ≡ record proc { pc = n }
later-at proc m n e = λ i. record proc { pc = e i }

-- A process whose next `k` instructions are calculations, with at least `k` turns of its slice
-- left, executes them in `k` turns, with no other process in between.
pub turns-AtCalc :
    (k : ℕ) (time_slot done left : ℕ) (sys : System) (p : Pcb) (proc : Process)
    → process_at sys p.addr ≡ ok proc
    → proc.code_size < 2 ^ 32
    → ((i : ℕ) → i < k → AtCalc (later proc i))
    → k ≤ left
    → left < 2 ^ 31
    → turns time_slot done k sys (on p left)
      ≡ ok (put_process sys p.addr (later proc k), on p (left - k))
unfolding turns
turns-AtCalc zero time_slot done left sys p proc here fits c le small =
    let same : put_process sys p.addr (later proc 0) ≡ sys =
      ap (put_process sys p.addr) (later-at proc 0 proc.pc (omega arith))
      ∙ put_process-same sys p.addr proc here in
    let whole : left ≡ left - 0 = omega arith in λ i. ok (sym same i, on p (whole i))
turns-AtCalc (suc k) time_slot done left sys p proc here fits c le small =
    let first : AtCalc proc =
      rw (sym (later-at proc 0 proc.pc (omega arith))) (c 0 (omega arith)) in
    let bound = first.left in
    let next : Process = later proc 1 in
    let wrap : (proc.pc + 1) % 2 ^ 32 ≡ proc.pc + 1 = omega arith in
    let step : stepped proc ≡ next = λ i. record proc { pc = wrap i } in
    let rest =
      turns-AtCalc k time_slot done (left - 1) (put_process sys p.addr next) p next
        (put_process-here sys p.addr proc next here) fits
        (λ i lt. rw (later-at next i (proc.pc + suc i) (omega arith)) (c (suc i) (omega arith)))
        (omega arith) (omega arith) in
    let moved : put_process (put_process sys p.addr next) p.addr (later next k)
        ≡ put_process sys p.addr (later proc (suc k)) =
      put_process-twice sys p.addr next (later next k)
      ∙ ap (put_process sys p.addr) (later-at next k (proc.pc + suc k) (omega arith)) in
    let less : left - 1 - k ≡ left - suc k = omega arith in
    rw (turn-AtCalc time_slot done left sys p proc here first (omega arith) small, step, rest)
      (λ i. ok (moved i, on p (less i)))

-- A process whose slice is over goes to the end of its level and of `running_list`, each of which drops it when ten are
-- there; the oldest process of the first level that then holds one, which stands at a calculation, executes it and has
-- the rest of a whole slice left.
pub cpu_turn-expired :
    (time_slot done i : ℕ) (sys : System) (xss : List (List Pcb)) (xs running qs : List Pcb)
    (p q : Pcb) (proc next : Process)
    → Hold sys.sched.mlq_ready_queue xss
    → Holds sys.sched.running_list running
    → get_elem? xss p.prio ≡ some xs
    → process_at sys p.addr ≡ ok proc
    → proc.pc ≢ proc.code_size
    → First (set xss p.prio (push xs p)) i q qs
    → process_at sys q.addr ≡ ok next
    → AtCalc next
    → 0 < time_slot
    → time_slot < 2 ^ 31
    → (sched : Sched) × (cpu_turn time_slot done sys (on p 0)
        ≡ ok (
          slept,
          put_process (record sys { sched = sched }) q.addr (stepped next),
          on q (time_slot - 1),
        ))
      × Hold sched.mlq_ready_queue (set (set xss p.prio (push xs p)) i qs)
      × Holds sched.running_list (push running p)
unfolding cpu_turn turn_body recheck take_proc process_at
cpu_turn-expired time_slot done i sys xss xs running qs p q proc next h hr level here more f there c
      pos small =
    let (put, ran, h', hr') = (put_proc-add_proc sys.sched xss running p h hr).1 xs level in
    let (levels, got, h'') = get_proc-First put (set xss p.prio (push xs p)) i q qs h' f in
    let sched : Sched = record put { mlq_ready_queue = levels } in
    let ready = run-AtCalc (record sys { sched = sched }) q.addr next there c in
    (
      sched,
      rw
          (
            here,
            ≢→== proc.pc proc.code_size more,
            ran,
            got,
            ready,
            sadd-minus_one time_slot pos small,
          )
          refl,
      h'',
      hr',
    )
