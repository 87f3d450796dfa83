-- ===== src/World/Hanging.antt =====
-- A simulation of src/os.c that never ends.
use waguri.Base.{
  ℕ, ◌<◌, ◌≡◌, ◌≢◌, refl, sym, ap, ◌∙◌, arith, inl, inr, none, some, List, [], eq_or_ne, length,
  length-set, get_elem?, set, get_elem?-set_self, get_elem?-set_ne, get_elem?-set_cases,
  get_elem?-some, lt_of_get_elem?, ok, ok-injective,
}
use waguri.Sched.{Pcb}
use waguri.Sched.Levels.{Hold, Idle}
use waguri.Machine.{System}
use waguri.Os.{Turn, slept, Cpu, cpu_turn, Entry, ld_turn}
use waguri.Os.Idle.{cpu_turn-Idle}
use waguri.Timer.{
  gone, stopped, Device, Timer, Step, arrived, resumed, detached, let_off, next_round, told_to_stop,
  arrive, resume, detach, pass, scanned, advance, let_go, more_to_do, all_finished, stop, join,
  Attached, Reach, start, later,
}
use waguri.Timer.Ending.{Reach-stopped}
use waguri.World.{
  World, Moves, cpu_sleeps, cpu_stops, loader_sleeps, loader_stops, timer_moves, created,
  cpu_device, loader_device, Runs, here, next,
}

-- A move of the threads moves the timer by a step.
Moves-Reach :
    {time_slot : ℕ} {t : Timer} {w v : World}
    → Moves time_slot w v
    → Reach t w.timer
    → Reach t v.timer
Moves-Reach (cpu_sleeps i c d p ran) r = later r (arrive _ d p)
Moves-Reach (cpu_stops i c d p ran) r = later r (detach _ d p)
Moves-Reach (loader_sleeps d p ran) r = later r (arrive _ d p)
Moves-Reach (loader_stops d p ran) r = later r (detach _ d p)
Moves-Reach (timer_moves st same) r = later r st

pub Runs-Reach :
    (time_slot num_cpus : ℕ) (sys : System) (entries : List Entry) (t : Timer) {w : World}
    → Runs time_slot (created num_cpus sys entries t) w
    → Reach t w.timer
unfolding created
Runs-Reach time_slot num_cpus sys entries t here = start
Runs-Reach time_slot num_cpus sys entries t (next runs move) =
    Moves-Reach move (Runs-Reach time_slot num_cpus sys entries t runs)

-- No process is left: none waits, none is to be loaded, and no processor has one; processor `i` has not
-- left the timer.
pub record Drained (i : ℕ) (w : World) : Type 0 where
  pub levels : List (List Pcb)
  pub holds : Hold w.sys.sched.mlq_ready_queue levels
  pub idle : Idle levels
  pub loaded : w.entries ≡ []
  pub free : (j : ℕ) (c : Cpu) → get_elem? w.cpus j ≡ some c → c.proc ≡ none
  pub index : i < length w.cpus
  pub device : Device
  pub listed : get_elem? w.timer.dev_list (cpu_device w i) ≡ some device
  pub present : device.place ≢ gone

-- Until the timer's thread has ended, its list keeps its length.
pub Step-length :
    {t u : Timer} → Step t u → t.phase ≢ stopped → length u.dev_list ≡ length t.dev_list
Step-length (next_round _ _) ne = refl
Step-length (told_to_stop _ _) ne = refl
Step-length {t} (arrive i {d} _ _) ne = length-set t.dev_list i (arrived d)
Step-length {t} (resume i {d} _ _ _) ne = length-set t.dev_list i (resumed d)
Step-length {t} (detach i {d} _ _) ne = length-set t.dev_list i (detached d)
Step-length (pass _ _ _) ne = refl
Step-length (scanned _ _) ne = refl
Step-length (advance _) ne = refl
Step-length {t} (let_go {k} {d = d} _ _) ne = length-set t.dev_list k (let_off d)
Step-length (more_to_do _ _ _) ne = refl
Step-length (all_finished _ _ _) ne = refl
Step-length (stop _ _) ne = refl
Step-length (join _ e) ne = absurd (ne e)

-- A device that has not left keeps its place while another one, or its own wait, is written.
set-present :
    (ds : List Device) (k j : ℕ) {d : Device} (new : Device)
    → get_elem? ds k ≡ some d
    → d.place ≢ gone
    → (k ≡ j → new.place ≢ gone)
    → (d' : Device) × (get_elem? (set ds j new) k ≡ some d') × (d'.place ≢ gone)
set-present ds k j {d} new at there other = elim (eq_or_ne j k) [
  | inl e ↦ (new, rw e (get_elem?-set_self ds k new (lt_of_get_elem? ds k at)), other (sym e))
  | inr ne ↦ (d, get_elem?-set_ne ds j k new ne ∙ at, there)
]

module _ (time_slot i : ℕ) {w : World} (f : Drained i w) where
  -- A processor's turn changes nothing but, at most, its own variables.
  cpu-idles :
      (j : ℕ) {cpu cpu' : Cpu} {turn : Turn} {sys' : System}
      → get_elem? w.cpus j ≡ some cpu
      → cpu_turn time_slot w.done w.sys cpu ≡ ok (turn, sys', cpu')
      → (turn ≡ slept) × (sys' ≡ w.sys) × (cpu'.proc ≡ none)
  cpu-idles j {cpu} {cpu'} {turn} {sys'} at ran =
      let vacant : cpu ≡ record { proc = none; time_left = cpu.time_left } =
        λ k. record { proc = f.free j cpu at k; time_left = cpu.time_left } in
      let is = ok-injective (
        sym ran
        ∙ ap (cpu_turn time_slot w.done w.sys) vacant
        ∙ cpu_turn-Idle time_slot w.done cpu.time_left w.sys f.levels f.holds f.idle) in
      (ap (λ r. r.0) is, ap (λ r. r.1) is, ap (λ r. r.2.proc) is)

  -- The loader has nothing to do.
  loader-idles :
      {turn : Turn} {es : List Entry} {sys' : System}
      → ld_turn w.timer.time w.entries w.sys ≡ ok (turn, es, sys')
      → (es ≡ []) × (sys' ≡ w.sys)
  unfolding ld_turn
  loader-idles ran =
      let is = ok-injective (sym ran ∙ ap (λ es. ld_turn w.timer.time es w.sys) f.loaded) in
      (ap (λ r. r.1) is, ap (λ r. r.2) is)

  still-Drained :
      (v : World)
      → v.sys ≡ w.sys
      → v.entries ≡ []
      → length v.cpus ≡ length w.cpus
      → ((j : ℕ) (c : Cpu) → get_elem? v.cpus j ≡ some c → c.proc ≡ none)
      → ((d : Device) × (get_elem? v.timer.dev_list (cpu_device w i) ≡ some d) × (d.place ≢ gone))
      → Drained i v
  still-Drained v same loaded size free (d, at, there) = record {
    levels = f.levels;
    holds = rw same f.holds;
    idle = f.idle;
    loaded = loaded;
    free = free;
    index = rw size f.index;
    device = d;
    listed = rw size at;
    present = there;
  }

  -- What a processor's turn leaves of the processors
  still-free :
      (j : ℕ) (cpu' : Cpu)
      → cpu'.proc ≡ none
      → (k : ℕ) (c : Cpu) → get_elem? (set w.cpus j cpu') k ≡ some c
      → c.proc ≡ none
  still-free j cpu' vacant k c at = elim (get_elem?-set_cases w.cpus j k cpu' at) [
    | inl (e, is) ↦ rw (sym is) vacant
    | inr (ne, was) ↦ f.free k c was
  ]

  Moves-Drained : {v : World} → Moves time_slot w v → w.timer.phase ≢ stopped → Drained i v
  Moves-Drained (cpu_sleeps j {cpu} {cpu'} {sys'} {d} at listed place ran) more =
      let (turn, same, vacant) = cpu-idles j at ran in
      still-Drained _ same f.loaded (length-set w.cpus j cpu') (still-free j cpu' vacant) (
        set-present w.timer.dev_list (cpu_device w i) (cpu_device w j) (arrived d) f.listed
          f.present (λ e g. ground (arith, g)))
  Moves-Drained (cpu_stops j at listed place ran) more =
      let (turn, same, vacant) = cpu-idles j at ran in ground (arith, turn)
  Moves-Drained (loader_sleeps {d = d} listed place ran) more =
      let (rest, same) = loader-idles ran in
      still-Drained _ same rest refl f.free (
        set-present w.timer.dev_list (cpu_device w i) loader_device (arrived d) f.listed f.present
          (λ e g. ground (arith, g)))
  Moves-Drained (loader_stops {d = d} listed place ran) more =
      let (rest, same) = loader-idles ran in
      still-Drained _ same rest refl f.free (
        set-present w.timer.dev_list (cpu_device w i) loader_device (detached d) f.listed f.present
          (λ e g. omega (arith, e, f.index)))
  Moves-Drained (timer_moves {t} step same) more =
      let k = cpu_device w i in
      let (d, at) =
        get_elem?-some t.dev_list k
          (omega (arith, Step-length step more, lt_of_get_elem? w.timer.dev_list k f.listed)) in
      let (c, was, slots, left) = same k d at in
      let is : c ≡ f.device = ground (arith, was, f.listed) in
      still-Drained _ refl f.loaded refl f.free
        (d, at, λ g. f.present (ap (λ x. x.place) (sym is) ∙ left.1 g))

-- The timer's thread of a state with a device that has not left is still running.
Drained-running :
    {t : Timer} (i : ℕ) {w : World}
    → Attached t
    → Reach t w.timer
    → Drained i w
    → w.timer.phase ≢ stopped
Drained-running i {w} a r f e = f.present (Reach-stopped a r e (cpu_device w i) f.device f.listed)

Runs-Drained :
    (time_slot i : ℕ) {t : Timer} {w v : World}
    → Attached t
    → Reach t w.timer
    → Drained i w
    → Runs time_slot w v
    → Reach t v.timer × Drained i v
Runs-Drained time_slot i a r f here = (r, f)
Runs-Drained time_slot i a r f (next runs move) =
    let (r', f') = Runs-Drained time_slot i a r f runs in
    (Moves-Reach move r', Moves-Drained time_slot i f' move (Drained-running i a r' f'))

-- Once no process is left and a processor without one has not left the timer, the simulation never ends:
-- whatever the threads do from then on, that processor does not leave, the timer's thread does not end,
-- and no process runs.
pub Runs-hang :
    (time_slot num_cpus i : ℕ) (sys : System) (entries : List Entry) {t : Timer} {w v : World}
    → Attached t
    → Runs time_slot (created num_cpus sys entries t) w
    → Drained i w
    → Runs time_slot w v
    → (v.timer.phase ≢ stopped)
      × ((d : Device) × (get_elem? v.timer.dev_list (cpu_device v i) ≡ some d) × (d.place ≢ gone))
      × ((j : ℕ) (c : Cpu) → get_elem? v.cpus j ≡ some c → c.proc ≡ none)
Runs-hang time_slot num_cpus i sys entries {t} a before f after =
    let (r, g) =
      Runs-Drained time_slot i a (Runs-Reach time_slot num_cpus sys entries t before) f after in
    (Drained-running i a r g, (g.device, g.listed, g.present), g.free)
