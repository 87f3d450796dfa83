-- ===== src/World/Wiring.antt =====
-- The devices of the timer of src/timer.c and the threads of src/os.c that they belong to.
use waguri.Base.{
  ℕ, ◌+◌, ◌≡◌, ◌≢◌, ◌⊎◌, ◌↔◌, inl, inr, refl, sym, ap, ◌∙◌, arith, some, List, length, length-set,
  length-replicate, get_elem?, set, get_elem?-set_cases,
}
use waguri.Machine.{System}
use waguri.Os.{Entry}
use waguri.Timer.{
  gone, Phase, off, head, scan, tick, release, stopped, Device, Timer, start_timer, Step,
  next_round, told_to_stop, arrive, resume, detach, pass, scanned, advance, let_go, more_to_do,
  all_finished, stop, join,
}
use waguri.World.{
  World, SameSlots, Moves, cpu_sleeps, cpu_stops, loader_sleeps, loader_stops, timer_moves,
  idle_cpu, created, Runs, here, next,
}
use waguri.World.Hanging.{Step-length}

-- A step of the timer's thread, or a device that leaves its wait
pub same_list : (t u : Timer) → u.dev_list ≡ t.dev_list → SameSlots t u
same_list t u e = λ i d h. (d, ap (λ l. get_elem? l i) (sym e) ∙ h, refl, ((λ g. g), λ g. g))

pub set_list :
    (t u : Timer) (k : ℕ) {old : Device} (new : Device)
    → u.dev_list ≡ set t.dev_list k new
    → get_elem? t.dev_list k ≡ some old
    → new.slots ≡ old.slots
    → (old.place ≡ gone) ↔ (new.place ≡ gone)
    → SameSlots t u
set_list t u k {old} new e at slots place = λ i d h.
    elim (get_elem?-set_cases t.dev_list k i new (ap (λ l. get_elem? l i) (sym e) ∙ h)) [
      | inl (here', is) ↦ (
        old,
        ap (get_elem? t.dev_list) (sym here') ∙ at,
        ap (λ x. x.slots) (sym is) ∙ slots,
        ((λ g. ap (λ x. x.place) (sym is) ∙ place.0 g), λ g. place.1 (ap (λ x. x.place) is ∙ g)),
      )
      | inr (ne, was) ↦ (d, was, refl, ((λ g. g), λ g. g))
    ]

-- Each device that is attached belongs to the loader or to a processor.
abbrev pub Wired : World → Type 0
Wired w = length w.timer.dev_list ≡ length w.cpus + 1

-- The timer's thread does not start again.
Step-stopped : {t u : Timer} → Step t u → t.phase ≡ stopped → u.phase ≡ stopped
Step-stopped (next_round e _) s = ground (arith, e, s)
Step-stopped (told_to_stop e _) s = refl
Step-stopped (arrive _ _ _) s = s
Step-stopped (resume _ _ _ _) s = s
Step-stopped (detach _ _ _) s = s
Step-stopped (pass e _ _) s = ground (arith, e, s)
Step-stopped (scanned e _) s = ground (arith, e, s)
Step-stopped (advance e) s = ground (arith, e, s)
Step-stopped (let_go e _) s = ground (arith, e, s)
Step-stopped (more_to_do e _ _) s = ground (arith, e, s)
Step-stopped (all_finished e _ _) s = refl
Step-stopped (stop _ _) s = s
Step-stopped (join _ e) s = e

pub Phase-stopped : (p : Phase) → (p ≡ stopped) ⊎ (p ≢ stopped)
Phase-stopped off = inr (λ e. ground (arith, e))
Phase-stopped head = inr (λ e. ground (arith, e))
Phase-stopped (scan k fsh event) = inr (λ e. ground (arith, e))
Phase-stopped (tick fsh event) = inr (λ e. ground (arith, e))
Phase-stopped (release k fsh event) = inr (λ e. ground (arith, e))
Phase-stopped stopped = inl refl

-- What a move does to the timer is a step, and it keeps the number of processors.
Moves-Step :
    {time_slot : ℕ} {w v : World}
    → Moves time_slot w v
    → Step w.timer v.timer × (length v.cpus ≡ length w.cpus)
Moves-Step {w = w} (cpu_sleeps i {cpu' = cpu'} c d p ran) = (arrive _ d p, length-set w.cpus i cpu')
Moves-Step {w = w} (cpu_stops i {cpu' = cpu'} c d p ran) = (detach _ d p, length-set w.cpus i cpu')
Moves-Step (loader_sleeps d p ran) = (arrive _ d p, refl)
Moves-Step (loader_stops d p ran) = (detach _ d p, refl)
Moves-Step (timer_moves st same) = (st, refl)

pub Runs-Wired :
    (time_slot num_cpus : ℕ) (sys : System) (entries : List Entry) (t : Timer) {w : World}
    → length t.dev_list ≡ num_cpus + 1
    → Runs time_slot (created num_cpus sys entries t) w
    → w.timer.phase ≢ stopped
    → Wired w
unfolding created start_timer
Runs-Wired time_slot num_cpus sys entries t size here on =
    omega (arith, size, length-replicate num_cpus idle_cpu)
Runs-Wired time_slot num_cpus sys entries t size (next {u} runs move) on =
    let (step, cpus) = Moves-Step move in
    let before : u.timer.phase ≢ stopped = λ e. on (Step-stopped step e) in
    omega (
      arith,
      Step-length step before,
      cpus,
      Runs-Wired time_slot num_cpus sys entries t size runs before,
    )
