-- ===== src/Os.antt =====
-- The simulator of src/os.c: a turn of a processor's thread and of the loader's thread, each up to
-- its next `next_slot` or its end, and the devices that `main` makes. What these print is left out.
pub mod Idle
pub mod Slice
pub mod Dangling
pub mod Entering
pub mod Boot
use waguri.Base.{
  ℕ, ◌+◌, ◌<◌, Option, none, some, List, [], ◌∷◌, ◌++◌, ◌==◌, ltb, if◌then◌else◌, length, set, Run,
  ok, fault, ◌>>=◌,
}
use waguri.Cint.{sadd, minus}
use waguri.Memphy.{Memphy, init_memphy}
use waguri.Mm.{Mm, init_mm}
use waguri.Sched.{Pcb, Sched, get_proc, put_proc, add_proc, init_scheduler}
use waguri.Machine.{Process, System, process_at}
use waguri.Cpu.{run}

-- How a turn ends: with `next_slot`, or past the loop.
pub data Turn : Type 0 where
  slept : Turn
  stopped : Turn

-- The variables of `cpu_routine`
pub record Cpu : Type 0 where
  pub proc : Option Pcb
  pub time_left : ℕ

-- `proc = get_proc()`
unfoldable pub take_proc : System → Run (Option Pcb × System)
take_proc sys = do (proc, sched) ← get_proc sys.sched; ok (proc, record sys { sched = sched })

-- `free(proc)`
abbrev pub without_block : System → ℕ → System
without_block sys addr = record sys { procs = set sys.procs addr none }

-- What follows "Recheck process status", with the constant `time_slot` and the variable `done`
unfoldable pub recheck : ℕ → ℕ → System → Option Pcb → ℕ → Run (Turn × System × Cpu)
recheck time_slot done sys none time_left =
    if done == 0
    then ok (Turn.slept, sys, record { proc = none; time_left = time_left })
    else ok (Turn.stopped, sys, record { proc = none; time_left = time_left })
recheck time_slot done sys (some p) time_left = do
  (code, sys') ← run sys p.addr
  left ← sadd (if time_left == 0 then time_slot else time_left) (minus 1)
  ok (Turn.slept, sys', record { proc = some p; time_left = left })

-- The first load of a processor that has no process, which skips the turn when it fails
unfoldable pub first_load : ℕ → ℕ → System → Option Pcb → ℕ → Run (Turn × System × Cpu)
unfolding recheck
first_load time_slot done sys none time_left =
    ok (Turn.slept, sys, record { proc = none; time_left = time_left })
first_load time_slot done sys (some p) time_left = recheck time_slot done sys (some p) time_left

-- The body of the loop of `cpu_routine`
unfoldable pub turn_body : ℕ → ℕ → System → Option Pcb → ℕ → Run (Turn × System × Cpu)
unfolding process_at take_proc recheck first_load
turn_body time_slot done sys none time_left = do
  (next, sys') ← take_proc sys
  first_load time_slot done sys' next time_left
turn_body time_slot done sys (some p) time_left = do
  proc ← process_at sys p.addr
  let finished = (do
    (next, sys') ← take_proc (without_block sys p.addr)
    recheck time_slot done sys' next 0)
  let put_back = (do
    sched ← put_proc sys.sched p
    (next, sys') ← take_proc (record sys { sched = sched })
    recheck time_slot done sys' next time_left)
  if proc.pc == proc.code_size
      then finished
      else if time_left == 0
      then put_back
      else recheck time_slot done sys (some p) time_left

unfoldable pub cpu_turn : ℕ → ℕ → System → Cpu → Run (Turn × System × Cpu)
unfolding turn_body
cpu_turn time_slot done sys cpu = turn_body time_slot done sys cpu.proc cpu.time_left

-- A line of the configuration, with the block that `load` gives for its file, and with what
-- `malloc` leaves in the page table that `init_mm` makes for it
pub record Entry : Type 0 where
  pub start_time : ℕ
  pub prio : ℕ
  pub proc : Process
  pub words : List ℕ

-- The body of the loop of `ld_routine` at a time, with the entries that are left; with none left the
-- thread sets `done`, which the turn `stopped` stands for. A turn starts when `load` has returned.
unfoldable pub ld_turn : ℕ → List Entry → System → Run (Turn × List Entry × System)
ld_turn now [] sys = ok (Turn.stopped, [], sys)
ld_turn now (e ∷ es) sys =
    let enter = (do
      sched ← add_proc sys.sched (record { addr = length sys.procs; prio = e.prio })
      ok (
        Turn.slept,
        es,
        record sys {
          sched = sched;
          procs =
              sys.procs
              ++ some (record e.proc { mm = init_mm e.proc.mm e.words; active_mswp = 0 }) ∷ [];
        },
      )) in
    if ltb now e.start_time then ok (Turn.slept, e ∷ es, sys) else enter

-- The random access devices that `main` makes
unfoldable pub make_device : Memphy → ℕ → Run Memphy
make_device blank size = do (code, device) ← init_memphy blank size 1; ok device

unfoldable pub make_swaps : Memphy → List ℕ → Run (List Memphy)
unfolding make_device
make_swaps blank [] = ok []
make_swaps blank (size ∷ sizes) = do
  device ← make_device blank size
  rest ← make_swaps blank sizes
  ok (device ∷ rest)

-- What `main` sets up before it creates the threads: `blank` is memory that nothing was written to.
unfoldable pub boot : Sched → Memphy → ℕ → List ℕ → Run System
unfolding make_device make_swaps
boot sched blank memramsz memswpsz = do
  mram ← make_device blank memramsz
  mswp ← make_swaps blank memswpsz
  ok (record { sched = init_scheduler sched; mram = mram; mswp = mswp; procs = [] })
