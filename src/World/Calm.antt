-- ===== src/World/Calm.antt =====
-- Simulations of src/os.c whose processes only calculate.
use waguri.Base.{
  ℕ, zero, suc, ◌<◌, ◌≡◌, inl, inr, refl, sym, ap, ◌∙◌, arith, Option, none, some, List, [], ◌∷◌,
  ◌++◌, ltb, Bool-cases, length, length-set, get_elem?, get_elem?-some, set, ok,
}
use waguri.Queue.{Queue, enqueue, max_queue_size}
use waguri.Queue.Bounded.{push, empty-Holds, enqueue-Holds, dequeue-Holds}
use waguri.Sched.{Pcb, Sched, mlq_loop, get_mlq_proc, get_proc, put_mlq_proc, put_proc}
use waguri.Sched.Levels.{Hold, no_level, level}
use waguri.Machine.{Opcode, Inst, Process, System}
use waguri.Cpu.{run}
use waguri.Os.{take_proc}

-- Every instruction of a process is a calculation.
pub record IsCalc (proc : Process) : Type 0 where
  pub at :
      (pc : ℕ)
      → pc < proc.code_size
      → (ins : Inst) × (get_elem? proc.text pc ≡ some ins) × (ins.opcode ≡ Opcode.calc)

-- Every process of a level has a priority that has a level.
abbrev pub Ranked : ℕ → List Pcb → Type 0
Ranked n [] = Unit
Ranked n (p ∷ ps) = (p.prio < n) × Ranked n ps

abbrev pub AllRanked : ℕ → List (List Pcb) → Type 0
AllRanked n [] = Unit
AllRanked n (xs ∷ xss) = Ranked n xs × AllRanked n xss

abbrev pub RankedNext : ℕ → Option Pcb → Type 0
RankedNext n none = Unit
RankedNext n (some p) = p.prio < n

Ranked-snoc : (n : ℕ) (xs : List Pcb) (p : Pcb) → p.prio < n → Ranked n xs → Ranked n (xs ++ p ∷ [])
Ranked-snoc n [] p lt h = (lt, tt)
Ranked-snoc n (x ∷ xs) p lt (l, h) = (l, Ranked-snoc n xs p lt h)

Ranked-push : (n : ℕ) (xs : List Pcb) (p : Pcb) → p.prio < n → Ranked n xs → Ranked n (push xs p)
unfolding push
Ranked-push n xs p lt h = elim (Bool-cases (ltb (length xs) max_queue_size)) [
  | inl e ↦ rw e (Ranked-snoc n xs p lt h)
  | inr e ↦ rw e h
]

-- What holds of the scheduler and of the blocks of such a simulation, with `n` levels
pub record Calm (n : ℕ) (sys : System) : Type 0 where
  pub levels : List (List Pcb)
  pub holds : Hold sys.sched.mlq_ready_queue levels
  pub ranked : AllRanked n levels
  pub size : length sys.sched.mlq_ready_queue ≡ n
  pub codes : (a : ℕ) (p : Process) → get_elem? sys.procs a ≡ some (some p) → IsCalc p

mlq_loop-Ranked :
    (n : ℕ) {qs : List (Queue Pcb)} {xss : List (List Pcb)}
    → Hold qs xss
    → AllRanked n xss
    → (next : Option Pcb) × (qs' : List (Queue Pcb)) × (xss' : List (List Pcb)) × (mlq_loop qs
        ≡ ok (next, qs'))
      × Hold qs' xss'
      × AllRanked n xss'
      × RankedNext n next
      × (length qs' ≡ length qs)
unfolding mlq_loop
mlq_loop-Ranked n no_level r = (none, [], [], refl, no_level, tt, tt, refl)
mlq_loop-Ranked n (level {q} {qs} {xs = []} {xss} h hs) (r, rs) =
    let (next, qs', xss', run, hs', rs', rn, size) = mlq_loop-Ranked n hs rs in
    (
      next,
      q ∷ qs',
      [] ∷ xss',
      rw (empty-Holds h, run) refl,
      level h hs',
      (tt, rs'),
      rn,
      ap suc size,
    )
mlq_loop-Ranked n (level {q} {qs} {xs = x ∷ xs} {xss} h hs) ((lt, r), rs) =
    let (q', run, h') = dequeue-Holds h in
    (some x, q' ∷ qs, xs ∷ xss, rw (empty-Holds h, run) refl, level h' hs, (r, rs), lt, refl)

pub take_proc-Calm :
    (n : ℕ) {sys : System}
    → Calm n sys
    → (next : Option Pcb) × (sys' : System) × (take_proc sys ≡ ok (next, sys'))
      × Calm n sys'
      × RankedNext n next
unfolding take_proc get_proc get_mlq_proc
take_proc-Calm n {sys} c =
    let (next, qs, xss, ran, h, r, rn, size) = mlq_loop-Ranked n c.holds c.ranked in
    (
      next,
      record sys { sched = record sys.sched { mlq_ready_queue = qs } },
      rw ran refl,
      record { levels = xss; holds = h; ranked = r; size = size ∙ c.size; codes = c.codes },
      rn,
    )

enqueue-Ranked :
    (n : ℕ) (p : Pcb) (i : ℕ) {qs : List (Queue Pcb)} {xss : List (List Pcb)} {r : Queue Pcb}
    → Hold qs xss
    → AllRanked n xss
    → p.prio < n
    → get_elem? qs i ≡ some r
    → (xss' : List (List Pcb)) × Hold (set qs i (enqueue r p)) xss' × AllRanked n xss'
enqueue-Ranked n p i no_level k lt e = ground (arith, e)
enqueue-Ranked n p zero {r} (level {q} {qs} {xs} {xss} h hs) (k, ks) lt e =
    let same : q ≡ r = ground (arith, e) in
    (push xs p ∷ xss, level (rw (sym same) (enqueue-Holds p h)) hs, (Ranked-push n xs p lt k, ks))
enqueue-Ranked n p (suc i) (level {q} {qs} {xs} {xss} h hs) (k, ks) lt e =
    let (xss', hs', ks') = enqueue-Ranked n p i hs ks lt e in (xs ∷ xss', level h hs', (k, ks'))

pub put_proc-Calm :
    (n : ℕ) {sys : System} (p : Pcb)
    → Calm n sys
    → p.prio < n
    → (s : Sched) × (put_proc sys.sched p ≡ ok s) × Calm n (record sys { sched = s })
unfolding put_proc put_mlq_proc
put_proc-Calm n {sys} p c lt =
    let (q, at) = get_elem?-some sys.sched.mlq_ready_queue p.prio (omega (arith, c.size)) in
    let (xss, h, r) = enqueue-Ranked n p p.prio c.holds c.ranked lt at in
    (
      record sys.sched {
        running_list = enqueue sys.sched.running_list p;
        mlq_ready_queue = set sys.sched.mlq_ready_queue p.prio (enqueue q p);
      },
      rw at refl,
      record {
        levels = xss;
        holds = h;
        ranked = r;
        size = length-set sys.sched.mlq_ready_queue p.prio (enqueue q p) ∙ c.size;
        codes = c.codes;
      },
    )
