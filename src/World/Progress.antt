-- ===== src/World/Progress.antt =====
-- The threads of src/os.c never wait for each other for ever.
use waguri.Base.{
  ℕ, zero, suc, ◌+◌, ◌-◌, ◌<◌, ◌≡◌, ◌⊎◌, ◌↔◌, inl, inr, refl, ap, ◌∙◌, arith, some, List, length,
  get_elem?, get_elem?-some, set, lt_of_get_elem?, ok,
}
use waguri.Machine.{System}
use waguri.Os.{Turn, Cpu, cpu_turn, Entry, ld_turn}
use waguri.Timer.{
  working, gone, stopped, Device, Timer, Step, resumed, let_off, next_round, told_to_stop, arrive,
  resume, detach, pass, scanned, advance, let_go, more_to_do, all_finished, stop, join, Attached,
}
use waguri.Timer.Ending.{Reach-progress}
use waguri.World.{
  World, Moves, cpu_sleeps, cpu_stops, loader_sleeps, loader_stops, timer_moves, created,
  cpu_device, Runs,
}
use waguri.World.Hanging.{Runs-Reach}
use waguri.World.Wiring.{same_list, set_list, Wired, Phase-stopped, Runs-Wired}

-- Every thread's next turn, if it has one, ends.
module _ (time_slot : ℕ) (w : World)
    (turns : (i : ℕ) (c : Cpu)
      → get_elem? w.cpus i ≡ some c
      → (turn : Turn) × (sys' : System) × (c' : Cpu) × (cpu_turn time_slot w.done w.sys c
          ≡ ok (turn, sys', c')))
    (loads : (turn : Turn) × (es : List Entry) × (sys' : System) × (ld_turn w.timer.time w.entries
          w.sys
        ≡ ok (turn, es, sys'))) where
  loader-Moves :
      (d : Device)
      → get_elem? w.timer.dev_list 0 ≡ some d
      → d.place ≡ working
      → (v : World) × Moves time_slot w v
  loader-Moves d at place = go loads
    where
      go :
          ((turn : Turn) × (es : List Entry) × (sys' : System) × (ld_turn w.timer.time w.entries
                w.sys
              ≡ ok (turn, es, sys')))
          → (v : World) × Moves time_slot w v
      go (Turn.slept, es, sys', ran) = (_, loader_sleeps at place ran)
      go (Turn.stopped, es, sys', ran) = (_, loader_stops at place ran)

  cpu-Moves :
      (i : ℕ) (c : Cpu) (d : Device)
      → get_elem? w.cpus i ≡ some c
      → get_elem? w.timer.dev_list (cpu_device w i) ≡ some d
      → d.place ≡ working
      → (v : World) × Moves time_slot w v
  cpu-Moves i c d here' at place = go (turns i c here')
    where
      go :
          ((turn : Turn) × (sys' : System) × (c' : Cpu) × (cpu_turn time_slot w.done w.sys c
              ≡ ok (turn, sys', c')))
          → (v : World) × Moves time_slot w v
      go (Turn.slept, sys', c', ran) = (_, cpu_sleeps i here' at place ran)
      go (Turn.stopped, sys', c', ran) = (_, cpu_stops i here' at place ran)

  -- A device that is at its own work makes a turn.
  device-Moves :
      (k : ℕ) {d : Device}
      → Wired w
      → get_elem? w.timer.dev_list k ≡ some d
      → d.place ≡ working
      → (v : World) × Moves time_slot w v
  device-Moves zero {d} wired at place = loader-Moves d at place
  device-Moves (suc j) {d} wired at place =
      let i = length w.cpus - suc j in
      let lt : suc j < length w.cpus + 1 =
        omega (arith, lt_of_get_elem? w.timer.dev_list (suc j) at, wired) in
      let (c, here') = get_elem?-some w.cpus i (omega arith) in
      let same : cpu_device w i ≡ suc j = omega arith in
      cpu-Moves i c d here' (ap (get_elem? w.timer.dev_list) same ∙ at) place

  -- A step that leaves the devices as they are, or writes one of them.
  quiet-Moves :
      {u : Timer}
      → Step w.timer u
      → u.dev_list ≡ w.timer.dev_list
      → (v : World) × Moves time_slot w v
  quiet-Moves {u} st e = (record w { timer = u }, timer_moves st (same_list w.timer u e))

  set-Moves :
      {u : Timer} (k : ℕ) {old : Device} (new : Device)
      → Step w.timer u
      → u.dev_list ≡ set w.timer.dev_list k new
      → get_elem? w.timer.dev_list k ≡ some old
      → new.slots ≡ old.slots
      → (old.place ≡ gone) ↔ (new.place ≡ gone)
      → (v : World) × Moves time_slot w v
  set-Moves {u} k new st e at slots place =
      (record w { timer = u }, timer_moves st (set_list w.timer u k new e at slots place))

  Step-Moves :
      {u : Timer}
      → Wired w
      → Step w.timer u
      → (w.timer.phase ≡ stopped) ⊎ ((v : World) × Moves time_slot w v)
  Step-Moves wired (next_round e s) = inr (quiet-Moves (next_round e s) refl)
  Step-Moves wired (told_to_stop e s) = inr (quiet-Moves (told_to_stop e s) refl)
  Step-Moves wired (arrive k at place) = inr (device-Moves k wired at place)
  Step-Moves wired (resume k {d} at place z) = inr (
      set-Moves k (resumed d) (resume k at place z) refl at refl
        ((λ g. ground (arith, place, g)), λ g. ground (arith, g)))
  Step-Moves wired (detach k at place) = inr (device-Moves k wired at place)
  Step-Moves wired (pass e at f) = inr (quiet-Moves (pass e at f) refl)
  Step-Moves wired (scanned e l) = inr (quiet-Moves (scanned e l) refl)
  Step-Moves wired (advance e) = inr (quiet-Moves (advance e) refl)
  Step-Moves wired (let_go {k} {d = d} e at) =
      inr (set-Moves k (let_off d) (let_go e at) refl at refl ((λ g. g), λ g. g))
  Step-Moves wired (more_to_do e l ne) = inr (quiet-Moves (more_to_do e l ne) refl)
  Step-Moves wired (all_finished e l f) = inr (quiet-Moves (all_finished e l f) refl)
  Step-Moves wired (stop g s) = inr (quiet-Moves (stop g s) refl)
  Step-Moves wired (join s e) = inl e

-- No deadlock of the whole simulation: in every state that the threads reach, with a device for each processor
-- and one for the loader, the timer's thread has ended, or some thread can move on, provided that no
-- thread's next turn meets an undefined step.
pub Runs-progress :
    (time_slot num_cpus : ℕ) (sys : System) (entries : List Entry) {t : Timer} {w : World}
    → Attached t
    → length t.dev_list ≡ num_cpus + 1
    → Runs time_slot (created num_cpus sys entries t) w
    → ((i : ℕ) (c : Cpu)
        → get_elem? w.cpus i ≡ some c
        → (turn : Turn) × (sys' : System) × (c' : Cpu) × (cpu_turn time_slot w.done w.sys c
            ≡ ok (turn, sys', c')))
    → ((turn : Turn) × (es : List Entry) × (sys' : System) × (ld_turn w.timer.time w.entries w.sys
          ≡ ok (turn, es, sys')))
    → (w.timer.phase ≡ stopped) ⊎ ((v : World) × Moves time_slot w v)
Runs-progress time_slot num_cpus sys entries {t} {w} a size runs turns loads =
    elim (Phase-stopped w.timer.phase) [
      | inl e ↦ inl e
      | inr on ↦
          let wired = Runs-Wired time_slot num_cpus sys entries t size runs on in
          elim (Reach-progress a (Runs-Reach time_slot num_cpus sys entries t runs)) [
            | inl e ↦ inl e
            | inr (u, step) ↦ Step-Moves time_slot w turns loads wired step
          ]
    ]
