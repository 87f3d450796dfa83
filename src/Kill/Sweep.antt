-- ===== src/Kill/Sweep.antt =====
-- The loop of src/sys_killall.c over one queue ends every process of the name and keeps the others
-- in their order.
use waguri.Base.{
  ℕ, zero, suc, ◌+◌, ◌-◌, ◌≡◌, inl, inr, refl, sym, ap, ◌∙◌, arith, true, false, Option, some, List,
  [], ◌∷◌, ◌++◌, length, get_elem?, get_elem?-middle, snoc-append, length-append, Bool-cases, ok,
}
use waguri.Queue.{Queue, shift_loop}
use waguri.Queue.Bounded.{Holds}
use waguri.Queue.Removal.{shift_loop-Holds}
use waguri.Sched.{Pcb}
use waguri.Machine.{Process, System, process_at, c_text, same_text}
use waguri.Kill.{find_match, kill_loop}
use waguri.Kill.Survivors.{
  AllAlive, doomed, survivors, kills, killed, Killed, Ended, terminate-Ended, Ended-self,
  Ended-doomed, Ended-cases, Ended-IsAlive,
}

module _ {name : List ℕ} where
  pub Killed-nil : (sys : System) → Killed name [] sys sys
  Killed-nil sys = record {
    sched = refl;
    devices = refl;
    dead = λ i p proc e. ground (arith, e);
    kept = λ a proc e. inl e;
  }

  Killed-spare :
      {xs : List Pcb} {sys sys' : System} (p : Pcb)
      → doomed sys.procs name p ≡ false
      → Killed name xs sys sys'
      → Killed name (p ∷ xs) sys sys'
  Killed-spare {xs} {sys} {sys'} p spared k = record {
    sched = k.sched;
    devices = k.devices;
    dead = dead;
    kept = k.kept;
  }
    where
      dead :
          (i : ℕ) (q : Pcb) (proc : Process)
          → get_elem? (p ∷ xs) i ≡ some q
          → get_elem? sys.procs q.addr ≡ some (some proc)
          → same_text proc.path (c_text name) ≡ true
          → get_elem? sys'.procs q.addr ≡ some (some (killed proc))
      dead zero q proc e at named =
          let this : doomed sys.procs name q ≡ true = rw at named in ground (arith, e, this, spared)
      dead (suc i) q proc e at named = k.dead i q proc e at named

  Killed-end :
      {xs : List Pcb} {sys sys₁ sys' : System} (p : Pcb) (proc : Process)
      → Ended p.addr proc sys sys₁
      → get_elem? sys.procs p.addr ≡ some (some proc)
      → same_text proc.path (c_text name) ≡ true
      → Killed name xs sys₁ sys'
      → Killed name (p ∷ xs) sys sys'
  Killed-end {xs} {sys} {sys₁} {sys'} p proc end here matches k = record {
    sched = k.sched ∙ end.sched;
    devices = k.devices ∙ end.devices;
    dead = dead;
    kept = λ a q at. elim (Ended-cases end here a q at) [
      | inl at₁ ↦ k.kept a q at₁
      | inr (at₁, same) ↦ elim (k.kept a (killed q) at₁) [
        | inl at' ↦ inr (at', rw same matches)
        | inr (at', m) ↦ inr (at', rw same matches)
      ]
    ];
  }
    where
      dead :
          (i : ℕ) (q : Pcb) (old : Process)
          → get_elem? (p ∷ xs) i ≡ some q
          → get_elem? sys.procs q.addr ≡ some (some old)
          → same_text old.path (c_text name) ≡ true
          → get_elem? sys'.procs q.addr ≡ some (some (killed old))
      dead zero q old e at named =
          let final : get_elem? sys'.procs p.addr ≡ some (some (killed proc)) =
            elim (k.kept p.addr (killed proc) (Ended-self end here)) [
              | inl at' ↦ at'
              | inr (at', m) ↦ at'
            ] in
          let this : q ≡ p = ground (arith, e) in
          let same : old ≡ proc = ground (arith, at, here, this) in rw (this, same) final
      dead (suc i) q old e at named = elim (Ended-cases end here q.addr old at) [
        | inl at₁ ↦ k.dead i q old e at₁ named
        | inr (at₁, same) ↦ k.dead i q (killed old) e at₁ named
      ]

module _ (name : List ℕ) where
  -- The processes of a name are the same in two tables of blocks with the same names.
  pub survivors-cong :
      (procs procs' : List (Option Process)) (xs : List Pcb)
      → ((i : ℕ) (p : Pcb) → get_elem? xs i ≡ some p → doomed procs' name p ≡ doomed procs name p)
      → (survivors procs' name xs ≡ survivors procs name xs)
        × (kills procs' name xs ≡ kills procs name xs)
  survivors-cong procs procs' [] same = (refl, refl)
  survivors-cong procs procs' (p ∷ ps) same =
      let (a, b) = survivors-cong procs procs' ps (λ i. same (suc i)) in
      (rw (same 0 p refl, a) refl, rw (same 0 p refl, b) refl)

  -- What the loop has done when it ends
  pub record Swept (xs pre : List Pcb) (i count : ℕ) (q : Queue Pcb) (sys : System) : Type 0 where
    pub queue : Queue Pcb
    pub system : System
    pub run :
        kill_loop (length xs) i name q sys count
        ≡ ok (queue, system, count + kills sys.procs name xs)
    pub holds : Holds queue (pre ++ survivors sys.procs name xs)
    pub outcome : Killed name xs sys system

  pub kill_loop-Swept :
      (xs pre : List Pcb) (i count : ℕ) (q : Queue Pcb) (sys : System)
      → i ≡ length pre
      → Holds q (pre ++ xs)
      → AllAlive sys xs
      → Swept xs pre i count q sys
  unfolding kill_loop find_match process_at
  kill_loop-Swept [] pre i count q sys at h all = record {
    queue = q;
    system = sys;
    run = ap (λ c. ok (q, sys, c)) (omega arith);
    holds = h;
    outcome = Killed-nil sys;
  }
  kill_loop-Swept (p ∷ xs) pre i count q sys at h all =
      let live = all 0 p refl in
      let slot : get_elem? q.proc i ≡ some (some p) =
        rw at (h.at (length pre) p (get_elem?-middle pre p xs)) in
      elim (Bool-cases (same_text live.proc.path (c_text name))) [
        | inr other ↦
            let spared : doomed sys.procs name p ≡ false = rw live.block other in
            let rest =
              kill_loop-Swept xs (pre ++ p ∷ []) (i + 1) count q sys
                (rw at (omega (arith, length-append pre (p ∷ [])))) (rw (snoc-append pre p xs) h)
                (λ j. all (suc j)) in
            record {
              queue = rest.queue;
              system = rest.system;
              run = rw (slot, live.block, other) rest.run;
              holds =
                  rw (live.block, other, sym (snoc-append pre p (survivors sys.procs name xs)))
                    rest.holds;
              outcome = Killed-spare p spared rest.outcome;
            }
        | inl named ↦
            let (next, ended, end) = terminate-Ended sys p live in
            let (shifted, moved, h') = shift_loop-Holds pre p xs h in
            let moved' : shift_loop (q.size - 1 - i) (i + 1) q.proc ≡ ok shifted = rw at moved in
            let q' : Queue Pcb = record { proc = shifted; size = q.size - 1 } in
            let (same, same') =
              survivors-cong sys.procs next.procs xs
                (λ j x e. Ended-doomed end live.block name x) in
            let rest =
              kill_loop-Swept xs pre i (count + 1) q' next at h'
                (λ j x e. Ended-IsAlive end live.block x (all (suc j) x e)) in
            record {
              queue = rest.queue;
              system = rest.system;
              run =
                  rw (slot, live.block, named, ended, moved', rest.run, same')
                    (ap (λ c. ok (rest.queue, rest.system, c)) (omega arith));
              holds = rw (live.block, named, sym same) rest.holds;
              outcome = Killed-end p live.proc end live.block named rest.outcome;
            }
      ]
