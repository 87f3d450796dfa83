-- ===== src/Tests/Running.antt =====
-- Examples for processors, with one process of two calculations.
use waguri.Base.{
  ℕ, zero, suc, ◌≡◌, ◌<◌, ◌≤◌, null, refl, arith, List, [], ◌∷◌, get_elem?, some, none, ok, fault,
}
use waguri.Queue.{Queue}
use waguri.Queue.Bounded.{Holds, push}
use waguri.Sched.{Pcb, Sched}
use waguri.Sched.Levels.{Hold, no_level, level, First, Idle}
use waguri.Machine.{Process, System, process_at, put_process}
use waguri.Kill.{kill_named}
use waguri.Cpu.{stepped}
use waguri.Cpu.Code.{AllSame}
use waguri.Cpu.Advance.{run-AllSame}
use waguri.Os.{
  slept, stopped, without_block, recheck, turn_body, cpu_turn, take_proc, Entry, ld_turn, boot,
}
use waguri.Os.Entering.{entered, pcb_of, with_process, ld_turn-enters, ld_turn-next}
use waguri.Os.Boot.{AllFresh, Sizes, boot-AllFresh}
use waguri.Memphy.Frames.{IsFresh}
use waguri.Tests.Data.{ram}
use waguri.Os.Idle.{take_proc-Idle}
use waguri.Os.Slice.{AtCalc, run-AtCalc, on, later, cpu_turn-expired}
use waguri.Os.Dangling.{cpu_turn-dangles}
use waguri.Tests.Scheduling.{none_waiting, none_waiting-Holds, holding-Holds}
use waguri.Tests.Killing.{calculation, worker, boss, machine}

-- The machine with the process at an instruction, and no process that waits
abbrev at_pc : ℕ → System
at_pc pc = machine (worker [] pc) none_waiting

two_levels : Hold (none_waiting ∷ none_waiting ∷ []) ([] ∷ [] ∷ [])
two_levels = level none_waiting-Holds (level none_waiting-Holds no_level)

two_levels-Idle : Idle ([] ∷ [] ∷ [])
two_levels-Idle zero xs e = ground (arith, e)
two_levels-Idle (suc zero) xs e = ground (arith, e)
two_levels-Idle (suc (suc j)) xs e = ground (arith, e)

worker-AtCalc : (i : ℕ) → i < 2 → AtCalc (later (worker [] 0) i)
worker-AtCalc zero lt = record {
  left = omega arith;
  ins = calculation;
  fetched = refl;
  calc = refl;
}
worker-AtCalc (suc zero) lt = record {
  left = omega arith;
  ins = calculation;
  fetched = refl;
  calc = refl;
}
worker-AtCalc (suc (suc i)) lt = absurd (omega arith)

run-AllSame_example :
    AllSame
      (put_process (at_pc 0) 0 (stepped (worker [] 0)))
      (put_process (at_pc 0) 0 (stepped (worker [] 0)))
unfolding process_at
run-AllSame_example =
    run-AllSame (at_pc 0) 0 (worker [] 0) refl (omega arith)
      (run-AtCalc (at_pc 0) 0 (worker [] 0) refl (worker-AtCalc 0 (omega arith)))

boss-First : First ([] ∷ (boss ∷ []) ∷ []) 1 boss []
boss-First = record { here = refl; above = above_boss }
  where
    above_boss : (j : ℕ) → j < 1 → get_elem? ([] ∷ (boss ∷ []) ∷ []) j ≡ some []
    above_boss zero lt = refl
    above_boss (suc j) lt = absurd (omega arith)

-- No other process waits, so the same one is dispatched again.
cpu_turn-expired_example :
    (sched : Sched) × (cpu_turn 5 0 (at_pc 0) (on boss 0)
      ≡ ok (
        slept,
        put_process (record (at_pc 0) { sched = sched }) 0 (stepped (worker [] 0)),
        on boss 4,
      ))
    × Hold sched.mlq_ready_queue ([] ∷ [] ∷ [])
    × Holds sched.running_list (boss ∷ boss ∷ [])
unfolding process_at push
cpu_turn-expired_example =
    cpu_turn-expired 5 0 1 (at_pc 0) ([] ∷ [] ∷ []) [] (boss ∷ []) [] boss boss (worker [] 0)
      (worker [] 0) two_levels (holding-Holds boss) refl refl (λ e. omega (arith, e)) boss-First
      refl (worker-AtCalc 0 (omega arith)) (omega arith) (omega arith)

cpu_turn-dangles_example :
    (sys' : System) × (cpu_turn 5 0 (at_pc 2) (on boss 3)
      ≡ ok (slept, sys', record { proc = none; time_left = 0 }))
    × (sys'.sched ≡ (at_pc 2).sched)
    × ((name : List ℕ) → kill_named sys' name ≡ fault)
unfolding process_at
cpu_turn-dangles_example =
    cpu_turn-dangles 5 3 (at_pc 2) ([] ∷ [] ∷ []) boss [] (worker [] 2) two_levels two_levels-Idle
      (holding-Holds boss) refl refl

last_turn :
    cpu_turn 5 1 (at_pc 2) (on boss 3)
    ≡ ok (stopped, without_block (at_pc 2) 0, record { proc = none; time_left = 0 })
unfolding cpu_turn turn_body recheck process_at
last_turn =
    rw (take_proc-Idle (without_block (at_pc 2) 0) ([] ∷ [] ∷ []) two_levels two_levels-Idle) refl

abbrev all_loaded : ℕ
all_loaded = 1

-- A line of the configuration, for time 2 and level 1
abbrev entry : Entry
entry = record { start_time = 2; prio = 1; proc = worker [] 0; words = 0 ∷ [] }

small-Sizes : Sizes (512 ∷ 0 ∷ [])
small-Sizes zero n e = ground (arith, e)
small-Sizes (suc zero) n e = ground (arith, e)
small-Sizes (suc (suc i)) n e = ground (arith, e)

ld_turn-enters_example :
    (sched : Sched) × (ld_turn 3 (entry ∷ []) (at_pc 0)
      ≡ ok (slept, [], with_process (at_pc 0) entry sched))
    × Hold sched.mlq_ready_queue ([] ∷ (pcb_of (at_pc 0) entry ∷ []) ∷ [])
    × Holds sched.running_list (boss ∷ pcb_of (at_pc 0) entry ∷ [])
    × (process_at (with_process (at_pc 0) entry sched) 1 ≡ ok (entered entry))
    × ((a : ℕ) (p : Process)
        → process_at (at_pc 0) a ≡ ok p
        → process_at (with_process (at_pc 0) entry sched) a ≡ ok p)
unfolding push
ld_turn-enters_example =
    ld_turn-enters 3 entry [] (at_pc 0) ([] ∷ [] ∷ []) [] (boss ∷ []) two_levels
      (holding-Holds boss) (omega arith) refl

up_to_entry : (j : ℕ) → j ≤ 1 → get_elem? {A = List Pcb} ([] ∷ [] ∷ []) j ≡ some []
up_to_entry zero l = refl
up_to_entry (suc zero) l = refl
up_to_entry (suc (suc j)) l = absurd (omega arith)

ld_turn-next_example :
    (sched : Sched) × (levels : List (Queue Pcb)) × (ld_turn 3 (entry ∷ []) (at_pc 0)
      ≡ ok (slept, [], with_process (at_pc 0) entry sched))
    × (take_proc (with_process (at_pc 0) entry sched)
        ≡ ok (
          some (pcb_of (at_pc 0) entry),
          with_process (at_pc 0) entry (record sched { mlq_ready_queue = levels }),
        ))
    × Hold levels ([] ∷ [] ∷ [])
ld_turn-next_example =
    ld_turn-next 3 entry [] (at_pc 0) ([] ∷ [] ∷ []) (boss ∷ []) two_levels (holding-Holds boss)
      (omega arith) (omega arith) up_to_entry

boot-AllFresh_example :
    (sys : System) × (boot (at_pc 0).sched (ram null) 1024 (512 ∷ 0 ∷ []) ≡ ok sys)
    × IsFresh (ram null) sys.mram 1024 1
    × AllFresh (ram null) sys.mswp (512 ∷ 0 ∷ [])
    × (sys.procs ≡ [])
    × (take_proc sys ≡ ok (none, sys))
boot-AllFresh_example =
    boot-AllFresh (at_pc 0).sched ([] ∷ [] ∷ []) (ram null) 1024 (512 ∷ 0 ∷ []) two_levels
      (omega arith) small-Sizes
