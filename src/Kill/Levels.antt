-- ===== src/Kill/Levels.antt =====
-- What the killall of src/sys_killall.c leaves of the whole scheduler.
use waguri.Base.{
  ℕ, suc, ◌+◌, ◌≡◌, inl, inr, refl, sym, ap, ◌∙◌, arith, Option, some, List, [], ◌∷◌, ◌++◌,
  get_elem?, get_elem?-append_cases, ok,
}
use waguri.Queue.{Queue}
use waguri.Queue.Bounded.{Holds}
use waguri.Sched.{Pcb}
use waguri.Sched.Levels.{Hold, no_level, level}
use waguri.Machine.{Process, System}
use waguri.Kill.{kill_loop, kill_levels, kill_named}
use waguri.Kill.Survivors.{IsAlive, AllAlive, doomed, survivors, kills, killed, Killed}
use waguri.Kill.Sweep.{Killed-nil, survivors-cong, kill_loop-Swept}

module _ {name : List ℕ} {xs : List Pcb} {sys sys' : System} (k : Killed name xs sys sys') where
  Killed-IsAlive : (p : Pcb) → IsAlive sys p → IsAlive sys' p
  Killed-IsAlive p h = elim (k.kept p.addr h.proc h.block) [
    | inl at ↦ record { proc = h.proc; block = at; table = h.table; device = rw k.devices h.device }
    | inr (at, m) ↦ record {
      proc = killed h.proc;
      block = at;
      table = h.table;
      device = rw k.devices h.device;
    }
  ]

  Killed-doomed : (p : Pcb) → IsAlive sys p → doomed sys'.procs name p ≡ doomed sys.procs name p
  Killed-doomed p h = elim (k.kept p.addr h.proc h.block) [
    | inl at ↦ rw (at, h.block) refl
    | inr (at, m) ↦ rw (at, h.block) refl
  ]

  Killed-append :
      {ys : List Pcb} {sys'' : System}
      → Killed name ys sys' sys''
      → Killed name (xs ++ ys) sys sys''
  Killed-append {ys} {sys''} l = record {
    sched = l.sched ∙ k.sched;
    devices = l.devices ∙ k.devices;
    dead = λ i p proc e at m. elim (get_elem?-append_cases xs ys i e) [
      | inl here ↦ elim (l.kept p.addr (killed proc) (k.dead i p proc here at m)) [
        | inl at' ↦ at'
        | inr (at', m') ↦ at'
      ]
      | inr (j, there) ↦ elim (k.kept p.addr proc at) [
        | inl at' ↦ l.dead j p proc there at' m
        | inr (at', m') ↦ l.dead j p (killed proc) there at' m
      ]
    ];
    kept = λ a proc at. elim (k.kept a proc at) [
      | inl at' ↦ l.kept a proc at'
      | inr (at', m) ↦ elim (l.kept a (killed proc) at') [
        | inl at'' ↦ inr (at'', m)
        | inr (at'', m') ↦ inr (at'', m)
      ]
    ];
  }

-- The processes of all levels, and what killall keeps and counts of them.
abbrev pub joined : List (List Pcb) → List Pcb
joined [] = []
joined (xs ∷ xss) = xs ++ joined xss

abbrev pub all_survivors : List (Option Process) → List ℕ → List (List Pcb) → List (List Pcb)
all_survivors procs name [] = []
all_survivors procs name (xs ∷ xss) = survivors procs name xs ∷ all_survivors procs name xss

abbrev pub all_kills : List (Option Process) → List ℕ → List (List Pcb) → ℕ
all_kills procs name [] = 0
all_kills procs name (xs ∷ xss) = kills procs name xs + all_kills procs name xss

abbrev pub LevelsAlive : System → List (List Pcb) → Type 0
LevelsAlive sys xss = (j : ℕ) (xs : List Pcb) → get_elem? xss j ≡ some xs → AllAlive sys xs

module _ (name : List ℕ) where
  all-cong :
      (procs procs' : List (Option Process)) (xss : List (List Pcb))
      → ((j i : ℕ) (xs : List Pcb) (p : Pcb)
          → get_elem? xss j ≡ some xs
          → get_elem? xs i ≡ some p
          → doomed procs' name p ≡ doomed procs name p)
      → (all_survivors procs' name xss ≡ all_survivors procs name xss)
        × (all_kills procs' name xss ≡ all_kills procs name xss)
  all-cong procs procs' [] same = (refl, refl)
  all-cong procs procs' (xs ∷ xss) same =
      let (a, b) = survivors-cong name procs procs' xs (λ i p. same 0 i xs p refl) in
      let (c, d) = all-cong procs procs' xss (λ j. same (suc j)) in (rw (a, c) refl, rw (b, d) refl)

  kill_levels-Hold :
      {qs : List (Queue Pcb)} {xss : List (List Pcb)} (sys : System) (count : ℕ)
      → Hold qs xss
      → LevelsAlive sys xss
      → (qs' : List (Queue Pcb)) × (sys' : System) × (kill_levels name qs sys count
          ≡ ok (qs', sys', count + all_kills sys.procs name xss))
        × Hold qs' (all_survivors sys.procs name xss)
        × Killed name (joined xss) sys sys'
  unfolding kill_levels
  kill_levels-Hold sys count no_level all =
      ([], sys, ap (λ c. ok ([], sys, c)) (omega arith), no_level, Killed-nil sys)
  kill_levels-Hold sys count (level {q} {qs} {xs} {xss} h hs) all =
      let one = kill_loop-Swept name xs [] 0 count q sys refl h (all 0 xs refl) in
      let next = one.system in
      let (qs', last, run, hs', k) =
        kill_levels-Hold next (count + kills sys.procs name xs) hs
          (λ j ys e i p e'. Killed-IsAlive one.outcome p (all (suc j) ys e i p e')) in
      let (a, b) =
        all-cong sys.procs next.procs xss
          (λ j i ys p e e'. Killed-doomed one.outcome p (all (suc j) ys e i p e')) in
      let first : kill_loop q.size 0 name q sys count
          ≡ ok (one.queue, next, count + kills sys.procs name xs) =
        ap (λ n. kill_loop n 0 name q sys count) h.count ∙ one.run in
      (
        one.queue ∷ qs',
        last,
        rw (first, run, b) (ap (λ c. ok (one.queue ∷ qs', last, c)) (omega arith)),
        level one.holds (rw (sym a) hs'),
        Killed-append one.outcome k,
      )

  -- Killall on processes whose memory can be given back: the number returned counts the processes of the
  -- name in `running_list` and again in the levels; both keep the others in their order. A process of the name has the
  -- number 0 and every other block is untouched.
  pub kill_named-Hold :
      {xs : List Pcb} {xss : List (List Pcb)} (sys : System)
      → Holds sys.sched.running_list xs
      → Hold sys.sched.mlq_ready_queue xss
      → AllAlive sys xs
      → LevelsAlive sys xss
      → (running : Queue Pcb) × (levels : List (Queue Pcb)) × (last : System) × (kill_named sys name
          ≡ ok (
            kills sys.procs name xs + all_kills sys.procs name xss,
            record last {
              sched = record sys.sched { running_list = running; mlq_ready_queue = levels };
            },
          ))
        × Holds running (survivors sys.procs name xs)
        × Hold levels (all_survivors sys.procs name xss)
        × Killed name (xs ++ joined xss) sys last
  unfolding kill_named
  kill_named-Hold {xs} {xss} sys h hs all alls =
      let one = kill_loop-Swept name xs [] 0 0 sys.sched.running_list sys refl h all in
      let next = one.system in
      let same : Hold next.sched.mlq_ready_queue xss = rw one.outcome.sched hs in
      let (qs', last, run, hs', k) =
        kill_levels-Hold next (0 + kills sys.procs name xs) same
          (λ j ys e i p e'. Killed-IsAlive one.outcome p (alls j ys e i p e')) in
      let (a, b) =
        all-cong sys.procs next.procs xss
          (λ j i ys p e e'. Killed-doomed one.outcome p (alls j ys e i p e')) in
      let first : kill_loop sys.sched.running_list.size 0 name sys.sched.running_list sys 0
          ≡ ok (one.queue, next, 0 + kills sys.procs name xs) =
        ap (λ n. kill_loop n 0 name sys.sched.running_list sys 0) h.count ∙ one.run in
      let kept : last.sched ≡ sys.sched = k.sched ∙ one.outcome.sched in
      let total : 0 + kills sys.procs name xs + all_kills sys.procs name xss
          ≡ kills sys.procs name xs + all_kills sys.procs name xss =
        omega arith in
      (
        one.queue,
        qs',
        last,
        rw (first, run, b)
            (λ i. ok (
              total i,
              record last {
                sched = record (kept i) { running_list = one.queue; mlq_ready_queue = qs' };
              },
            )),
        one.holds,
        rw (sym a) hs',
        Killed-append one.outcome k,
      )
