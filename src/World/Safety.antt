-- ===== src/World/Safety.antt =====
-- A simulation of src/os.c whose processes only calculate never meets an undefined step, and never
-- comes to a halt before its timer does.
use mathlib.Core.Path.{subst}
use waguri.Base.{
  ℕ, zero, suc, ◌+◌, ◌^◌, ◌<◌, ◌≡◌, ◌⊎◌, refl, sym, ap, ◌∙◌, arith, some, List, [], length,
  length-replicate, replicate, get_elem?, ok, >>=-eq-ok, ok-injective,
}
use waguri.Memphy.{Memphy}
use waguri.Queue.{Queue}
use waguri.Sched.{Pcb, Sched}
use waguri.Sched.Levels.{Hold, no_level, level}
use waguri.Sched.Policy.{init_scheduler-Idle}
use waguri.Machine.{System}
use waguri.Os.{Turn, Cpu, cpu_turn, Entry, ld_turn, make_device, make_swaps, boot}
use waguri.Timer as Timers
use waguri.Timer.{Timer, Attached}
use waguri.World.{World, Moves, idle_cpu, created, Runs}
use waguri.World.Owners.{boot-Owned}
use waguri.World.Progress.{Runs-progress}
use waguri.World.Calm.{AllRanked, Calm}
use waguri.World.Calculating.{Ready}
use waguri.World.Orderly.{AllFit, Orderly, ld_turn-Loads, Orderly-Ends, Runs-Orderly}

length-Hold : {qs : List (Queue Pcb)} {xss : List (List Pcb)} → Hold qs xss → length qs ≡ length xss
length-Hold no_level = refl
length-Hold (level h hs) = ap suc (length-Hold hs)

replicate-AllRanked : (n k : ℕ) → AllRanked n (replicate k [])
replicate-AllRanked n zero = tt
replicate-AllRanked n (suc k) = (tt, replicate-AllRanked n k)

idle-Ready : (n k i : ℕ) (c : Cpu) → get_elem? (replicate k idle_cpu) i ≡ some c → Ready n c
idle-Ready n zero i c at = ground (arith, at)
idle-Ready n (suc k) zero c at =
    let is : idle_cpu ≡ c = ground (arith, at) in
    rw (sym is) (record { ranked = tt; bound = omega arith })
idle-Ready n (suc k) (suc i) c at = idle-Ready n k i c at

boot-Calm :
    (memramsz : ℕ) (memswpsz : List ℕ) (sched : Sched) (xss : List (List Pcb)) (blank : Memphy)
    (sys : System)
    → Hold sched.mlq_ready_queue xss
    → boot sched blank memramsz memswpsz ≡ ok sys
    → Calm (length xss) sys
unfolding boot
boot-Calm memramsz memswpsz sched xss blank sys h booted =
    let (mram, made, rest) = >>=-eq-ok (make_device blank memramsz) _ booted in
    let (mswp, swaps, rest₁) = >>=-eq-ok (make_swaps blank memswpsz) _ rest in
    let (h', idle, same) = init_scheduler-Idle sched xss h in
    subst (Calm (length xss)) (ok-injective rest₁) (record {
      levels = replicate (length xss) [];
      holds = h';
      ranked = replicate-AllRanked (length xss) (length xss);
      size = length-Hold h' ∙ length-replicate (length xss) [];
      codes = λ a p at. ground (arith, at);
    })

-- A simulation of calculations only, started as `main` starts it, with a level for each priority, a slice of at least
-- one turn, and a device for each processor and for the loader: in every state that its threads reach, the next turn of
-- each processor and of the loader ends with no undefined step, and the timer's thread has ended or some thread can move.
pub Runs-safe :
    (time_slot num_cpus memramsz : ℕ) (memswpsz : List ℕ) (sched : Sched) (xss : List (List Pcb))
    (blank : Memphy) (sys : System) (entries : List Entry) {t : Timer} {w : World}
    → 0 < time_slot
    → time_slot < 2 ^ 31
    → Hold sched.mlq_ready_queue xss
    → boot sched blank memramsz memswpsz ≡ ok sys
    → AllFit (length xss) entries
    → Attached t
    → length t.dev_list ≡ num_cpus + 1
    → Runs time_slot (created num_cpus sys entries t) w
    → ((i : ℕ) (c : Cpu)
        → get_elem? w.cpus i ≡ some c
        → (turn : Turn) × (sys' : System) × (c' : Cpu) × (cpu_turn time_slot w.done w.sys c
            ≡ ok (turn, sys', c')))
      × ((turn : Turn) × (es : List Entry) × (sys' : System) × (ld_turn w.timer.time w.entries w.sys
            ≡ ok (turn, es, sys')))
      × ((w.timer.phase ≡ Timers.stopped) ⊎ ((v : World) × Moves time_slot w v))
unfolding created
Runs-safe time_slot num_cpus memramsz memswpsz sched xss blank sys entries {t} {w} positive small h
      booted fit a size runs =
    let first : Orderly (length xss) (created num_cpus sys entries t) = record {
      owned = boot-Owned num_cpus memramsz memswpsz sched xss blank sys entries t h booted;
      calm = boot-Calm memramsz memswpsz sched xss blank sys h booted;
      ready = idle-Ready (length xss) num_cpus;
      fit = fit;
    } in
    let o = Runs-Orderly (length xss) time_slot positive small runs first in
    let turns : (i : ℕ) (c : Cpu)
        → get_elem? w.cpus i ≡ some c
        → (turn : Turn) × (sys' : System) × (c' : Cpu) × (cpu_turn time_slot w.done w.sys c
            ≡ ok (turn, sys', c')) =
      λ i c at.
        let (turn, sys', c', ran, calm, ready) =
          Orderly-Ends (length xss) time_slot positive small w i c o at in
        (turn, sys', c', ran) in
    let (turn, es, sys', ran, calm, rest) =
      ld_turn-Loads (length xss) w.timer.time w.entries w.sys o.calm o.fit in
    (
      turns,
      (turn, es, sys', ran),
      Runs-progress time_slot num_cpus sys entries a size runs turns (turn, es, sys', ran),
    )
