-- ===== src/World/Orderly.antt =====
-- What holds in every state of a simulation of src/os.c whose processes only calculate.
use mathlib.Core.Path.{subst}
use waguri.Base.{
  ℕ, zero, suc, ◌-◌, ◌^◌, ◌<◌, ◌≡◌, inl, inr, refl, sym, ◌∙◌, arith, some, List, [], ◌∷◌, ◌++◌, ltb,
  Bool-cases, length, get_elem?, get_elem?-append_cases, get_elem?-set_cases, set, Run, ok,
  ok-injective,
}
use waguri.Mm.{init_mm}
use waguri.Sched.{Pcb, Sched, put_proc, add_proc, put_mlq_proc, add_mlq_proc}
use waguri.Machine.{Process, System}
use waguri.Os.{Turn, slept, stopped, Cpu, cpu_turn, Entry, ld_turn}
use waguri.World.{
  World, Moves, cpu_sleeps, cpu_stops, loader_sleeps, loader_stops, timer_moves, Runs, here, next,
}
use waguri.World.Counts.{on_cpu, running, on_cpu-running}
use waguri.World.Turns.{Fine-held}
use waguri.World.Owners.{Owned, Moves-Owned}
use waguri.World.Calm.{IsCalc, Calm, put_proc-Calm}
use waguri.World.Calculating.{Ready, Ends, cpu_turn-Ends}

-- What is to be loaded are calculations, with a level for each priority.
abbrev pub AllFit : ℕ → List Entry → Type 0
AllFit n [] = Unit
AllFit n (e ∷ es) = (e.prio < n) × IsCalc e.proc × AllFit n es

-- A turn of the loader that ends, and what then holds
abbrev pub Loads : ℕ → Run (Turn × List Entry × System) → Type 0
Loads n r =
    (turn : Turn) × (es : List Entry) × (sys' : System) × (r ≡ ok (turn, es, sys'))
    × Calm n sys'
    × AllFit n es

add_proc-put_proc : (s : Sched) (p : Pcb) → add_proc s p ≡ put_proc s p
unfolding add_proc put_proc add_mlq_proc put_mlq_proc
add_proc-put_proc s p = refl

pub ld_turn-Loads :
    (n now : ℕ) (es : List Entry) (sys : System)
    → Calm n sys
    → AllFit n es
    → Loads n (ld_turn now es sys)
unfolding ld_turn
ld_turn-Loads n now [] sys c fit = (stopped, [], sys, refl, c, tt)
ld_turn-Loads n now (e ∷ es) sys c (lt, calc, fit) = elim (Bool-cases (ltb now e.start_time)) [
  | inl early ↦ (slept, e ∷ es, sys, rw early refl, c, (lt, calc, fit))
  | inr due ↦
      let p : Pcb = record { addr = length sys.procs; prio = e.prio } in
      let new = record e.proc { mm = init_mm e.proc.mm e.words; active_mswp = 0 } in
      let (s, put, c') = put_proc-Calm n {sys = sys} p c lt in
      let added : add_proc sys.sched p ≡ ok s = add_proc-put_proc sys.sched p ∙ put in
      (
        slept,
        es,
        record sys { sched = s; procs = sys.procs ++ some new ∷ [] },
        rw (due, added) refl,
        record {
          levels = c'.levels;
          holds = c'.holds;
          ranked = c'.ranked;
          size = c'.size;
          codes = λ a q at. elim (get_elem?-append_cases sys.procs (some new ∷ []) a at) [
            | inl was ↦ c.codes a q was
            | inr (j, was) ↦ rw (sym (last j q was)) (record { at = calc.at })
          ];
        },
        fit,
      )
]
  where
    last :
        (j : ℕ) (q : Process)
        → get_elem?
            (some (record e.proc { mm = init_mm e.proc.mm e.words; active_mswp = 0 }) ∷ [])
            j
          ≡ some (some q)
        → record e.proc { mm = init_mm e.proc.mm e.words; active_mswp = 0 } ≡ q
    last zero q was = ground (arith, was)
    last (suc j) q was = ground (arith, was)

-- What holds in every state of such a simulation
pub record Orderly (n : ℕ) (w : World) : Type 0 where
  pub owned : Owned w
  pub calm : Calm n w.sys
  pub ready : (i : ℕ) (c : Cpu) → get_elem? w.cpus i ≡ some c → Ready n c
  pub fit : AllFit n w.entries

module _ (n time_slot : ℕ) (positive : 0 < time_slot) (small : time_slot < 2 ^ 31) where
  pub Orderly-Ends :
      (w : World) (i : ℕ) (c : Cpu)
      → Orderly n w
      → get_elem? w.cpus i ≡ some c
      → Ends n (cpu_turn time_slot w.done w.sys c)
  Orderly-Ends w i c o at =
      cpu_turn-Ends n time_slot w.done (λ a. running a w.cpus - on_cpu a c.proc) positive small
        w.sys c (Fine-held o.owned (λ a. omega (arith, on_cpu-running a w.cpus i at))) o.calm
        (o.ready i c at)

  set-Ready :
      (cs : List Cpu) (i : ℕ) (c' : Cpu)
      → ((j : ℕ) (c : Cpu) → get_elem? cs j ≡ some c → Ready n c)
      → Ready n c'
      → (j : ℕ) (c : Cpu) → get_elem? (set cs i c') j ≡ some c
      → Ready n c
  set-Ready cs i c' all this j c at = elim (get_elem?-set_cases cs i j c' at) [
    | inl (e, is) ↦ rw (sym is) this
    | inr (ne, was) ↦ all j c was
  ]

  -- A turn of a processor, whatever way it ends
  cpu-Orderly :
      {w v : World} (i : ℕ) {c c' : Cpu} {turn : Turn} {sys' : System}
      → Orderly n w
      → get_elem? w.cpus i ≡ some c
      → cpu_turn time_slot w.done w.sys c ≡ ok (turn, sys', c')
      → v.sys ≡ sys'
      → v.cpus ≡ set w.cpus i c'
      → v.entries ≡ w.entries
      → Owned v
      → Orderly n v
  cpu-Orderly {w} {v} i {c} {c'} {turn} {sys'} o at ran es ec ee owned =
      let (turn₁, sys₁, c₁, ran₁, calm, ready) = Orderly-Ends w i c o at in
      let is = ok-injective (sym ran₁ ∙ ran) in
      let calm' : Calm n sys' = subst (λ r. Calm n r.1) is calm in
      let ready' : Ready n c' = subst (λ r. Ready n r.2) is ready in
      record {
        owned = owned;
        calm = rw es calm';
        ready = rw ec (set-Ready w.cpus i c' o.ready ready');
        fit = rw ee o.fit;
      }

  loader-Orderly :
      {w v : World} {turn : Turn} {es : List Entry} {sys' : System}
      → Orderly n w
      → ld_turn w.timer.time w.entries w.sys ≡ ok (turn, es, sys')
      → v.sys ≡ sys'
      → v.cpus ≡ w.cpus
      → v.entries ≡ es
      → Owned v
      → Orderly n v
  loader-Orderly {w} {v} {turn} {es} {sys'} o ran e ec ee owned =
      let (turn₁, es₁, sys₁, ran₁, calm, fit) =
        ld_turn-Loads n w.timer.time w.entries w.sys o.calm o.fit in
      let is = ok-injective (sym ran₁ ∙ ran) in
      let calm' : Calm n sys' = subst (λ r. Calm n r.2) is calm in
      let fit' : AllFit n es = subst (λ r. AllFit n r.1) is fit in
      record { owned = owned; calm = rw e calm'; ready = rw ec o.ready; fit = rw ee fit' }

  Orderly-after : {w v : World} → Moves time_slot w v → Orderly n w → Owned v → Orderly n v
  Orderly-after (cpu_sleeps i at d p ran) o owned = cpu-Orderly i o at ran refl refl refl owned
  Orderly-after (cpu_stops i at d p ran) o owned = cpu-Orderly i o at ran refl refl refl owned
  Orderly-after (loader_sleeps d p ran) o owned = loader-Orderly o ran refl refl refl owned
  Orderly-after (loader_stops d p ran) o owned = loader-Orderly o ran refl refl refl owned
  Orderly-after (timer_moves st same) o owned = record {
    owned = owned;
    calm = o.calm;
    ready = o.ready;
    fit = o.fit;
  }

  pub Runs-Orderly : {w v : World} → Runs time_slot w v → Orderly n w → Orderly n v
  Runs-Orderly here o = o
  Runs-Orderly (next runs move) o =
      let before = Runs-Orderly runs o in
      Orderly-after move before (Moves-Owned time_slot move before.owned)
