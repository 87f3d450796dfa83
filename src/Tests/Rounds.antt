-- ===== src/Tests/Rounds.antt =====
-- Examples for the threads together, with one process of two calculations.
use waguri.Base.{
  ℕ, zero, suc, ◌⊎◌, ◌^◌, ◌<◌, ◌≡◌, null, refl, arith, List, [], ◌∷◌, get_elem?, some, none, ok,
  replicate,
}
use waguri.Cint.{sadd-minus_one}
use waguri.Memphy.{Memphy}
use waguri.Mm.{init_mm}
use waguri.Memphy.Frames.{init_memphy-IsFresh}
use waguri.Queue.{empty, enqueue, dequeue, shift_loop}
use waguri.Sched.{
  Pcb, Sched, init_scheduler, reset_levels, mlq_loop, get_mlq_proc, get_proc, add_mlq_proc,
  add_proc,
}
use waguri.Machine.{Process, System, process_at, put_process}
use waguri.Cpu.{run, execute}
use waguri.Os.{
  Turn, slept, Cpu, take_proc, recheck, first_load, turn_body, cpu_turn, Entry, ld_turn,
  make_device, make_swaps, boot,
}
use waguri.Timer.{
  gone, Device, Timer, fresh, unused, attach_event, start_timer, arrived, Attached, none_yet,
  one_more,
}
use waguri.Timer as Timers
use waguri.World.{World, Moves, cpu_sleeps, loader_sleeps, idle_cpu, created, Runs, here, next}
use waguri.Tests.Data.{ram}
use waguri.Tests.Scheduling.{none_waiting}
use waguri.Tests.Killing.{worker}
use waguri.Machine.{Opcode, Inst}
use waguri.Tests.Killing.{calculation}
use waguri.Tests.Threads.{two_devices, two_devices-Attached, empty_levels, vacant}
use waguri.World.Calm.{IsCalc}
use waguri.World.Orderly.{AllFit}
use waguri.World.Safety.{Runs-safe}

-- The memory that `main` makes, and the machine before the threads start
small_ram : 512 < 2 ^ 31
small_ram = omega arith

abbrev memory : Memphy
memory = (init_memphy-IsFresh (ram null) 512 1 small_ram).0

abbrev zeroed : Sched
zeroed = record vacant.sched { running_list = none_waiting }

abbrev booted : System
booted = record { sched = init_scheduler zeroed; mram = memory; mswp = []; procs = [] }

booted_lem : boot zeroed (ram null) 512 [] ≡ ok booted
unfolding boot make_device make_swaps
booted_lem = rw ((init_memphy-IsFresh (ram null) 512 1 small_ram).1) refl

-- One process, for time 0 and level 1
abbrev line : Entry
line = record { start_time = 0; prio = 1; proc = worker [] 0; words = 0 ∷ [] }

abbrev pcb : Pcb
pcb = record { addr = 0; prio = 1 }

abbrev with_one : World
with_one = created 1 booted (line ∷ []) two_devices

-- The loader has loaded the process, and the processor has run its first instruction.
abbrev loaded_sched : Sched
loaded_sched = record (init_scheduler zeroed) {
  running_list = record { proc = some pcb ∷ replicate 9 none; size = 1 };
  mlq_ready_queue = none_waiting ∷ record { proc = some pcb ∷ replicate 9 none; size = 1 } ∷ [];
}

abbrev taken_sched : Sched
taken_sched = record loaded_sched {
  mlq_ready_queue = none_waiting ∷ record { proc = some pcb ∷ replicate 9 none; size = 0 } ∷ [];
}

abbrev block : ℕ → Process
block pc = record (worker [] pc) { mm = init_mm (worker [] 0).mm (0 ∷ []); active_mswp = 0 }

abbrev loaded : System
loaded = record booted { sched = loaded_sched; procs = some (block 0) ∷ [] }

abbrev running_one : System
running_one = record booted { sched = taken_sched; procs = some (block 1) ∷ [] }

loads : ld_turn 0 (line ∷ []) booted ≡ ok (slept, [], loaded)
unfolding ld_turn add_proc add_mlq_proc enqueue init_scheduler reset_levels
loads = refl

dispatches :
    cpu_turn 5 0 loaded idle_cpu
    ≡ ok (slept, running_one, record { proc = some pcb; time_left = 4 })
unfolding cpu_turn turn_body first_load take_proc get_proc get_mlq_proc mlq_loop empty dequeue
    shift_loop recheck run process_at put_process execute
dispatches = rw (sadd-minus_one 5 (omega arith) (omega arith)) refl

abbrev loaded_world : World
loaded_world = record with_one {
  sys = loaded;
  entries = [];
  timer = record (start_timer two_devices) { dev_list = arrived fresh ∷ fresh ∷ [] };
}

abbrev final : World
final = record loaded_world {
  sys = running_one;
  cpus = record { proc = some pcb; time_left = 4 } ∷ [];
  timer = record (start_timer two_devices) { dev_list = arrived fresh ∷ arrived fresh ∷ [] };
}

final-Runs : Runs 5 with_one final
unfolding created start_timer
final-Runs =
    next (next here (loader_sleeps refl refl loads)) (cpu_sleeps 0 refl refl refl dispatches)

worker-IsCalc : IsCalc line.proc
worker-IsCalc = record { at = at }
  where
    at :
        (pc : ℕ)
        → pc < 2
        → (ins : Inst) × (get_elem? line.proc.text pc ≡ some ins) × (ins.opcode ≡ Opcode.calc)
    at zero lt = (calculation, refl, refl)
    at (suc zero) lt = (calculation, refl, refl)
    at (suc (suc pc)) lt = absurd (omega arith)

line-AllFit : AllFit 2 (line ∷ [])
line-AllFit = (omega arith, worker-IsCalc, tt)

Runs-safe_example :
    ((i : ℕ) (c : Cpu)
      → get_elem? final.cpus i ≡ some c
      → (turn : Turn) × (sys' : System) × (c' : Cpu) × (cpu_turn 5 0 running_one c
          ≡ ok (turn, sys', c')))
    × ((turn : Turn) × (es : List Entry) × (sys' : System) × (ld_turn final.timer.time []
            running_one
          ≡ ok (turn, es, sys')))
    × ((final.timer.phase ≡ Timers.stopped) ⊎ ((v : World) × Moves 5 final v))
unfolding created
Runs-safe_example =
    Runs-safe 5 1 512 [] zeroed ([] ∷ [] ∷ []) (ram null) booted (line ∷ []) (omega arith)
      (omega arith) empty_levels booted_lem line-AllFit two_devices-Attached (omega arith)
      final-Runs
