-- ===== src/Tests/Threads.antt =====
-- Examples for the threads together: one processor, and a process of two calculations.
use waguri.Base.{
  ℕ, zero, suc, ◌⊎◌, sym, ap, ◌∙◌, ◌≡◌, ◌≢◌, refl, arith, [], ◌∷◌, get_elem?, some, none, ok,
}
use waguri.Sched.Levels.{Hold, no_level, level, Idle}
use waguri.Machine.{System}
use waguri.Os.{Turn, slept, stopped, Cpu, cpu_turn, ld_turn}
use waguri.Os.Idle.{cpu_turn-Idle}
use waguri.Timer.{
  gone, Device, Timer, fresh, unused, attach_event, start_timer, arrived, Attached, none_yet,
  one_more,
}
use waguri.Timer as Timers
use waguri.World.{World, Moves, cpu_sleeps, idle_cpu, created, Runs, here, next}
use waguri.World.Progress.{Runs-progress}
use waguri.World.Hanging.{Drained, Runs-hang}
use waguri.Tests.Scheduling.{none_waiting, none_waiting-Holds}
use waguri.Tests.Killing.{worker, machine}

abbrev pub two_devices : Timer
two_devices = record unused { dev_list = fresh ∷ fresh ∷ [] }

pub two_devices-Attached : Attached two_devices
unfolding attach_event
two_devices-Attached = one_more (one_more none_yet refl) refl

pub empty_levels : Hold (none_waiting ∷ none_waiting ∷ []) ([] ∷ [] ∷ [])
empty_levels = level none_waiting-Holds (level none_waiting-Holds no_level)

empty_levels-Idle : Idle ([] ∷ [] ∷ [])
empty_levels-Idle zero xs e = ground (arith, e)
empty_levels-Idle (suc zero) xs e = ground (arith, e)
empty_levels-Idle (suc (suc j)) xs e = ground (arith, e)

-- A configuration without a process
abbrev pub vacant : System
vacant = machine (worker [] 0) none_waiting

abbrev at_start : World
at_start = created 1 vacant [] two_devices

vacant-Drained : Drained 0 at_start
unfolding created start_timer
vacant-Drained = record {
  levels = [] ∷ [] ∷ [];
  holds = empty_levels;
  idle = empty_levels-Idle;
  loaded = refl;
  free = free;
  index = omega arith;
  device = fresh;
  listed = refl;
  present = λ e. ground (arith, e);
}
  where
    free : (j : ℕ) (c : Cpu) → get_elem? (idle_cpu ∷ []) j ≡ some c → c.proc ≡ none
    free zero c e = ground (arith, e)
    free (suc j) c e = ground (arith, e)

abbrev slept_once : World
slept_once = record {
  sys = vacant;
  cpus = idle_cpu ∷ [];
  entries = [];
  done = 0;
  timer = record (start_timer two_devices) { dev_list = fresh ∷ arrived fresh ∷ [] };
}

slept_once-Runs : Runs 5 at_start slept_once
unfolding created start_timer
slept_once-Runs = next here (
    cpu_sleeps 0 refl refl refl
      (cpu_turn-Idle 5 0 0 vacant ([] ∷ [] ∷ []) empty_levels empty_levels-Idle))

Runs-hang_example :
    (slept_once.timer.phase ≢ Timers.stopped)
    × ((d : Device) × (get_elem? slept_once.timer.dev_list 1 ≡ some d) × (d.place ≢ gone))
    × ((j : ℕ) (c : Cpu) → get_elem? slept_once.cpus j ≡ some c → c.proc ≡ none)
Runs-hang_example =
    Runs-hang 5 1 0 vacant [] two_devices-Attached here vacant-Drained slept_once-Runs

slept_once-turns :
    (i : ℕ) (c : Cpu)
    → get_elem? slept_once.cpus i ≡ some c
    → (turn : Turn) × (sys' : System) × (c' : Cpu) × (cpu_turn 5 0 vacant c ≡ ok (turn, sys', c'))
slept_once-turns zero c at =
    let is : idle_cpu ≡ c = ground (arith, at) in
    (
      slept,
      vacant,
      idle_cpu,
      ap (cpu_turn 5 0 vacant) (sym is)
          ∙ cpu_turn-Idle 5 0 0 vacant ([] ∷ [] ∷ []) empty_levels empty_levels-Idle,
    )
slept_once-turns (suc i) c at = ground (arith, at)

nothing_left : ld_turn 0 [] vacant ≡ ok (stopped, [], vacant)
unfolding ld_turn
nothing_left = refl

Runs-progress_example :
    (slept_once.timer.phase ≡ Timers.stopped) ⊎ ((v : World) × Moves 5 slept_once v)
unfolding start_timer
Runs-progress_example =
    Runs-progress 5 1 vacant [] two_devices-Attached (omega arith) slept_once-Runs slept_once-turns
      (stopped, [], vacant, nothing_left)
