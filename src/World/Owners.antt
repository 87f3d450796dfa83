-- ===== src/World/Owners.antt =====
-- Who holds which process: a ghost count that every step of the threads of src/os.c preserves.
use waguri.Base.{
  ℕ, zero, suc, ◌+◌, ◌-◌, ◌≡◌, refl, arith, some, List, [], length, get_elem?, set, replicate, ok,
  >>=-eq-ok, ok-injective,
}
use mathlib.Core.Path.{subst}
use waguri.Memphy.{Memphy}
use waguri.Sched.{Pcb, Sched}
use waguri.Sched.Levels.{Hold}
use waguri.Sched.Policy.{init_scheduler-Idle}
use waguri.Machine.{System}
use waguri.Os.{Cpu, Entry, make_device, make_swaps, boot}
use waguri.Timer.{Timer}
use waguri.World.{
  World, Moves, cpu_sleeps, cpu_stops, loader_sleeps, loader_stops, timer_moves, idle_cpu, created,
}
use waguri.World.Counts.{on_cpu, waiting, running, running-set, on_cpu-running}
use waguri.World.Turns.{Fine, Fine-held, cpu_turn-Fine}
use waguri.World.Loads.{ld_turn-Fine}

abbrev pub Owned : World → Type 0
Owned w = Fine w.sys (λ a. running a w.cpus)

-- One processor has got other variables.
set-Fine :
    {sys sys' : System} (cpus : List Cpu) (i : ℕ) {cpu : Cpu} (cpu' : Cpu)
    → get_elem? cpus i ≡ some cpu
    → Fine sys (λ a. running a cpus)
    → ((others : ℕ → ℕ)
        → Fine sys (λ a. on_cpu a cpu.proc + others a)
        → Fine sys' (λ a. on_cpu a cpu'.proc + others a))
    → Fine sys' (λ a. running a (set cpus i cpu'))
set-Fine cpus i {cpu} cpu' at f turn =
    Fine-held
      (turn (λ a. running a cpus - on_cpu a cpu.proc)
        (Fine-held f (λ a. omega (arith, on_cpu-running a cpus i at))))
      (λ a. omega (arith, running-set a cpus i cpu' at, on_cpu-running a cpus i at))

pub Moves-Owned : (time_slot : ℕ) {w v : World} → Moves time_slot w v → Owned w → Owned v
Moves-Owned time_slot {w} (cpu_sleeps i {cpu} {cpu'} at d place ran) f =
    set-Fine w.cpus i cpu' at f (λ others g. cpu_turn-Fine others time_slot w.done cpu g ran)
Moves-Owned time_slot {w} (cpu_stops i {cpu} {cpu'} at d place ran) f =
    set-Fine w.cpus i cpu' at f (λ others g. cpu_turn-Fine others time_slot w.done cpu g ran)
Moves-Owned time_slot {w} (loader_sleeps d place ran) f = ld_turn-Fine w.timer.time w.entries f ran
Moves-Owned time_slot {w} (loader_stops d place ran) f = ld_turn-Fine w.timer.time w.entries f ran
Moves-Owned time_slot (timer_moves step same) f = f

-- At the start nobody holds anything.
running-idle : (a n : ℕ) → running a (replicate n idle_cpu) ≡ 0
running-idle a zero = refl
running-idle a (suc n) = omega (arith, running-idle a n)

waiting-replicate : (a n : ℕ) → waiting a (replicate n []) ≡ 0
waiting-replicate a zero = refl
waiting-replicate a (suc n) = omega (arith, waiting-replicate a n)

pub boot-Owned :
    (num_cpus memramsz : ℕ) (memswpsz : List ℕ) (sched : Sched) (xss : List (List Pcb))
    (blank : Memphy) (sys : System) (entries : List Entry) (t : Timer)
    → Hold sched.mlq_ready_queue xss
    → boot sched blank memramsz memswpsz ≡ ok sys
    → Owned (created num_cpus sys entries t)
unfolding created boot
boot-Owned num_cpus memramsz memswpsz sched xss blank sys entries t h booted =
    let (mram, made, rest) = >>=-eq-ok (make_device blank memramsz) _ booted in
    let (mswp, swaps, rest₁) = >>=-eq-ok (make_swaps blank memswpsz) _ rest in
    let (h', idle, same) = init_scheduler-Idle sched xss h in
    let none_held : (a : ℕ)
        → waiting a (replicate (length xss) []) + running a (replicate num_cpus idle_cpu) ≡ 0 =
      λ a. omega (arith, running-idle a num_cpus, waiting-replicate a (length xss)) in
    subst (λ s. Fine s (λ a. running a (replicate num_cpus idle_cpu))) (ok-injective rest₁)
      (record {
        levels = replicate (length xss) [];
        holds = h';
        unique = λ a. omega (arith, none_held a);
        blocks = λ a lt. absurd (omega (arith, none_held a));
      })
