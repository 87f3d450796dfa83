-- ===== src/World/Levels.antt =====
-- What taking a process from the levels and putting one back does to the counts of addresses.
use waguri.Base.{
  ℕ, zero, suc, ◌+◌, ◌≤◌, ◌≡◌, refl, arith, Option, none, some, List, [], ◌∷◌, get_elem?, set, ok,
  >>=-eq-ok, ok-injective, defined, sym,
}
use waguri.Queue.{Queue, enqueue}
use waguri.Queue.Bounded.{push, empty-Holds, enqueue-Holds, dequeue-Holds}
use waguri.Sched.{
  Pcb, Sched, mlq_loop, get_mlq_proc, get_proc, put_mlq_proc, put_proc, add_mlq_proc, add_proc,
}
use waguri.Sched.Levels.{Hold, no_level, level}
use waguri.World.Counts.{once, on_cpu, waiting, count-push}

-- The loop of `get_mlq_proc` always ends, and takes off the levels just the process that it gives.
mlq_loop-Hold :
    {qs : List (Queue Pcb)} {xss : List (List Pcb)}
    → Hold qs xss
    → (next : Option Pcb) × (qs' : List (Queue Pcb)) × (xss' : List (List Pcb)) × (mlq_loop qs
        ≡ ok (next, qs'))
      × Hold qs' xss'
      × ((a : ℕ) → waiting a xss ≡ waiting a xss' + on_cpu a next)
unfolding mlq_loop
mlq_loop-Hold no_level = (none, [], [], refl, no_level, λ a. omega arith)
mlq_loop-Hold (level {q} {qs} {xs = []} {xss} h hs) =
    let (next, qs', xss', run, hs', same) = mlq_loop-Hold hs in
    (
      next,
      q ∷ qs',
      [] ∷ xss',
      rw (empty-Holds h, run) refl,
      level h hs',
      λ a. omega (arith, same a),
    )
mlq_loop-Hold (level {q} {qs} {xs = x ∷ xs} {xss} h hs) =
    let (q', run, h') = dequeue-Holds h in
    (some x, q' ∷ qs, xs ∷ xss, rw (empty-Holds h, run) refl, level h' hs, λ a. omega arith)

pub get_proc-Hold :
    (s : Sched) {xss : List (List Pcb)}
    → Hold s.mlq_ready_queue xss
    → (next : Option Pcb) × (s' : Sched) × (xss' : List (List Pcb)) × (get_proc s ≡ ok (next, s'))
      × Hold s'.mlq_ready_queue xss'
      × ((a : ℕ) → waiting a xss ≡ waiting a xss' + on_cpu a next)
unfolding get_proc get_mlq_proc
get_proc-Hold s h =
    let (next, qs', xss', run, h', same) = mlq_loop-Hold h in
    (next, record s { mlq_ready_queue = qs' }, xss', rw run refl, h', same)

-- A process is appended to a level, or dropped.
enqueue-Hold :
    {qs : List (Queue Pcb)} {xss : List (List Pcb)} (p : Pcb) (i : ℕ) {r : Queue Pcb}
    → Hold qs xss
    → get_elem? qs i ≡ some r
    → (xss' : List (List Pcb)) × Hold (set qs i (enqueue r p)) xss'
      × ((a : ℕ) → waiting a xss' ≤ waiting a xss + once a p)
enqueue-Hold p i no_level e = ground (arith, e)
enqueue-Hold p zero {r} (level {q} {qs} {xs} {xss} h hs) e =
    let same : q ≡ r = ground (arith, e) in
    (
      push xs p ∷ xss,
      level (rw (sym same) (enqueue-Holds p h)) hs,
      λ a. omega (arith, count-push a xs p),
    )
enqueue-Hold p (suc i) (level {q} {qs} {xs} {xss} h hs) e =
    let (xss', hs', le) = enqueue-Hold p i hs e in
    (xs ∷ xss', level h hs', λ a. omega (arith, le a))

pub put_mlq_proc-Hold :
    (s : Sched) (p : Pcb) {xss : List (List Pcb)} {s' : Sched}
    → Hold s.mlq_ready_queue xss
    → put_mlq_proc s p ≡ ok s'
    → (xss' : List (List Pcb)) × Hold s'.mlq_ready_queue xss'
      × ((a : ℕ) → waiting a xss' ≤ waiting a xss + once a p)
unfolding put_mlq_proc
put_mlq_proc-Hold s p h run =
    let (q, at, run₁) = >>=-eq-ok (defined (get_elem? s.mlq_ready_queue p.prio)) _ run in
    let found : get_elem? s.mlq_ready_queue p.prio ≡ some q = ground (arith, at) in
    let (xss', h', le) = enqueue-Hold p p.prio h found in
    (xss', rw (sym (ok-injective run₁)) h', le)

pub put_proc-Hold :
    (s : Sched) (p : Pcb) {xss : List (List Pcb)} {s' : Sched}
    → Hold s.mlq_ready_queue xss
    → put_proc s p ≡ ok s'
    → (xss' : List (List Pcb)) × Hold s'.mlq_ready_queue xss'
      × ((a : ℕ) → waiting a xss' ≤ waiting a xss + once a p)
unfolding put_proc
put_proc-Hold s p h run =
    put_mlq_proc-Hold (record s { running_list = enqueue s.running_list p }) p h run

-- `add_proc` does the same.
pub add_proc-Hold :
    (s : Sched) (p : Pcb) {xss : List (List Pcb)} {s' : Sched}
    → Hold s.mlq_ready_queue xss
    → add_proc s p ≡ ok s'
    → (xss' : List (List Pcb)) × Hold s'.mlq_ready_queue xss'
      × ((a : ℕ) → waiting a xss' ≤ waiting a xss + once a p)
unfolding add_proc add_mlq_proc put_mlq_proc
add_proc-Hold s p h run =
    put_mlq_proc-Hold (record s { running_list = enqueue s.running_list p }) p h run
