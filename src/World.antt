-- ===== src/World.antt =====
-- The threads of src/os.c together: the processors, the loader and the timer, interleaved. A step of
-- a processor or of the loader is a whole turn and its call of `next_slot` or `detach_event`. The code has no such
-- atomic turns: what happens when the killall of one turn meets another turn is in Kill.Race.
pub mod Counts
pub mod Levels
pub mod Shrink
pub mod Instructions
pub mod Turns
pub mod Loads
pub mod Owners
pub mod Hanging
pub mod Wiring
pub mod Progress
pub mod Calm
pub mod Calculating
pub mod Orderly
pub mod Safety
use waguri.Base.{
  ℕ, zero, suc, ◌-◌, ◌≡◌, ◌↔◌, Option, none, some, List, [], ◌∷◌, length, get_elem?, set, replicate,
  Run, ok,
}
use waguri.Sched.{Pcb}
use waguri.Machine.{System}
use waguri.Os.{Turn, slept, stopped, Cpu, cpu_turn, Entry, ld_turn}
use waguri.Timer.{
  Place, working, gone, Device, Timer, with_device, arrived, detached, attach_event, start_timer,
  unused, Step,
}

-- `cpus` has the variables of each `cpu_routine`, `entries` what `ld_routine` has yet to load.
pub record World : Type 0 where
  pub sys : System
  pub cpus : List Cpu
  pub entries : List Entry
  pub done : ℕ
  pub timer : Timer

-- The places in the timer's list of the device of the loader, which is attached last, and of those
-- of the processors.
abbrev pub loader_device : ℕ
loader_device = 0

abbrev pub cpu_device : World → ℕ → ℕ
cpu_device w i = length w.cpus - i

-- Every device of the second timer was in the first, with as many calls of `next_slot`, and had left
-- exactly if it has: no thread of a device did more than leave a wait.
abbrev pub SameSlots : Timer → Timer → Type 0
SameSlots t u =
    (i : ℕ) (d : Device)
    → get_elem? u.dev_list i ≡ some d
    → (c : Device) × (get_elem? t.dev_list i ≡ some c)
      × (d.slots ≡ c.slots)
      × ((c.place ≡ gone) ↔ (d.place ≡ gone))

pub data Moves (time_slot : ℕ) (w : World) : World → Type 0 where
  cpu_sleeps :
      (i : ℕ) {cpu cpu' : Cpu} {sys' : System} {d : Device}
      → get_elem? w.cpus i ≡ some cpu
      → get_elem? w.timer.dev_list (cpu_device w i) ≡ some d
      → d.place ≡ working
      → cpu_turn time_slot w.done w.sys cpu ≡ ok (slept, sys', cpu')
      → Moves time_slot w (record w {
        sys = sys';
        cpus = set w.cpus i cpu';
        timer = with_device w.timer (cpu_device w i) (arrived d);
      })
  cpu_stops :
      (i : ℕ) {cpu cpu' : Cpu} {sys' : System} {d : Device}
      → get_elem? w.cpus i ≡ some cpu
      → get_elem? w.timer.dev_list (cpu_device w i) ≡ some d
      → d.place ≡ working
      → cpu_turn time_slot w.done w.sys cpu ≡ ok (stopped, sys', cpu')
      → Moves time_slot w (record w {
        sys = sys';
        cpus = set w.cpus i cpu';
        timer = with_device w.timer (cpu_device w i) (detached d);
      })
  loader_sleeps :
      {entries' : List Entry} {sys' : System} {d : Device}
      → get_elem? w.timer.dev_list loader_device ≡ some d
      → d.place ≡ working
      → ld_turn w.timer.time w.entries w.sys ≡ ok (slept, entries', sys')
      → Moves time_slot w (record w {
        sys = sys';
        entries = entries';
        timer = with_device w.timer loader_device (arrived d);
      })
  loader_stops :
      {entries' : List Entry} {sys' : System} {d : Device}
      → get_elem? w.timer.dev_list loader_device ≡ some d
      → d.place ≡ working
      → ld_turn w.timer.time w.entries w.sys ≡ ok (stopped, entries', sys')
      → Moves time_slot w (record w {
        sys = sys';
        entries = entries';
        done = 1;
        timer = with_device w.timer loader_device (detached d);
      })
  timer_moves :
      {t : Timer}
      → Step w.timer t
      → SameSlots w.timer t
      → Moves time_slot w (record w { timer = t })

-- `main` attaches a device for each processor, and then that of the loader.
abbrev pub attached : ℕ → Option Timer
attached zero = some unused
attached (suc n) = elim (attached n) [ none ↦ none | some t ↦ attach_event t ]

abbrev pub idle_cpu : Cpu
idle_cpu = record { proc = none; time_left = 0 }

-- The state when the threads are created, with `num_cpus` processors
unfoldable pub created : ℕ → System → List Entry → Timer → World
created num_cpus sys entries t = record {
  sys = sys;
  cpus = replicate num_cpus idle_cpu;
  entries = entries;
  done = 0;
  timer = start_timer t;
}

pub data Runs (time_slot : ℕ) (w : World) : World → Type 0 where
  here : Runs time_slot w w
  next : {u v : World} → Runs time_slot w u → Moves time_slot u v → Runs time_slot w v
