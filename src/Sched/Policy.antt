-- ===== src/Sched/Policy.antt =====
-- What the scheduler of src/sched.c picks, and what it remembers.
use waguri.Base.{
  ℕ, zero, suc, ◌≤◌, ◌<◌, ◌≡◌, refl, ◌∙◌, arith, ◌&&◌, none, some, List, [], ◌∷◌, if◌then◌else◌,
  length, get_elem?, set, ok, fault, get_elem?-past, replicate, get_elem?-set_self,
  get_elem?-set_ne,
}
use waguri.Memphy.{failure}
use waguri.Queue.{Queue, enqueue}
use waguri.Queue.Bounded.{Holds, push, is_nil, empty-Holds, enqueue-Holds}
use waguri.Sched.{
  Pcb, Sched, queue_empty, get_mlq_proc, get_proc, put_mlq_proc, add_mlq_proc, put_proc, add_proc,
  init_scheduler, reset_levels,
}
use waguri.Sched.Levels.{
  Hold, no_level, level, First, Idle, mlq_loop-First, mlq_loop-Idle, some_waiting-First,
  some_waiting-Idle, Hold-at,
}

-- `get_proc` gives the oldest process of the first level that holds one, and takes it off that
-- level; the other levels and the other variables stay.
pub get_proc-First :
    (s : Sched) (xss : List (List Pcb)) (i : ℕ) (p : Pcb) (ps : List Pcb)
    → Hold s.mlq_ready_queue xss
    → First xss i p ps
    → (levels : List (Queue Pcb)) × (get_proc s
        ≡ ok (some p, record s { mlq_ready_queue = levels }))
      × Hold levels (set xss i ps)
unfolding get_proc get_mlq_proc
get_proc-First s xss i p ps h f =
    let (levels, run, h') = mlq_loop-First i h f in (levels, rw run refl, h')

-- `get_proc` gives NULL and changes nothing when no level holds a process.
pub get_proc-Idle :
    (s : Sched) (xss : List (List Pcb))
    → Hold s.mlq_ready_queue xss
    → Idle xss
    → get_proc s ≡ ok (none, s)
unfolding get_proc get_mlq_proc
get_proc-Idle s xss h f = rw (mlq_loop-Idle h f) refl

-- `put_proc` and `add_proc` do the same: they append the process to its level and to
-- `running_list`, and drop it from either one that holds ten processes; a priority that has no
-- level is an access out of bounds.
pub put_proc-add_proc :
    (s : Sched) (xss : List (List Pcb)) (running : List Pcb) (p : Pcb)
    → Hold s.mlq_ready_queue xss
    → Holds s.running_list running
    → (put_proc s p ≡ add_proc s p)
      × ((xs : List Pcb)
          → get_elem? xss p.prio ≡ some xs
          → (s' : Sched) × (put_proc s p ≡ ok s')
            × Hold s'.mlq_ready_queue (set xss p.prio (push xs p))
            × Holds s'.running_list (push running p))
      × (length s.mlq_ready_queue ≤ p.prio → put_proc s p ≡ fault)
unfolding put_proc add_proc put_mlq_proc add_mlq_proc
put_proc-add_proc s xss running p h hr = (
  refl,
  (λ xs e.
      let (q, at, hq, replace) = Hold-at p.prio h e in
      (
        record s {
          running_list = enqueue s.running_list p;
          mlq_ready_queue = set s.mlq_ready_queue p.prio (enqueue q p);
        },
        rw at refl,
        replace (enqueue q p) (push xs p) (enqueue-Holds p hq),
        enqueue-Holds p hr,
      )),
  λ past. rw (get_elem?-past s.mlq_ready_queue p.prio past) refl,
)

-- A process that is put back when its level and those before it are empty is the next one that
-- `get_proc` gives, whatever waits on the later levels and whatever `slot` holds.
pub put_proc-get_proc :
    (s : Sched) (xss : List (List Pcb)) (running : List Pcb) (p : Pcb)
    → Hold s.mlq_ready_queue xss
    → Holds s.running_list running
    → p.prio < length xss
    → ((j : ℕ) → j ≤ p.prio → get_elem? xss j ≡ some [])
    → (s' s'' : Sched) × (put_proc s p ≡ ok s')
      × (get_proc s' ≡ ok (some p, s''))
      × Hold s''.mlq_ready_queue (set (set xss p.prio (p ∷ [])) p.prio [])
unfolding push
put_proc-get_proc s xss running p h hr lt above =
    let (s', put, h', hr') =
      (put_proc-add_proc s xss running p h hr).1 [] (above p.prio (omega arith)) in
    let (levels, get, h'') = get_proc-First s' (set xss p.prio (p ∷ [])) p.prio p [] h' (record {
      here = get_elem?-set_self xss p.prio (p ∷ []) lt;
      above =
          λ j l. get_elem?-set_ne xss p.prio j (p ∷ []) (λ e. omega arith) ∙ above j (omega arith);
    }) in
    (s', record s' { mlq_ready_queue = levels }, put, get, h'')

-- `queue_empty` gives -1 when a level holds a process, and otherwise 1 or 0 for the two queues that
-- the multilevel policy does not use: 1 when both are empty.
pub queue_empty_cases :
    (s : Sched) (xss : List (List Pcb)) (ready run : List Pcb)
    → Hold s.mlq_ready_queue xss
    → Holds s.ready_queue ready
    → Holds s.run_queue run
    → ((i : ℕ) (p : Pcb) (ps : List Pcb) → First xss i p ps → queue_empty s ≡ failure)
      × (Idle xss → queue_empty s ≡ (if is_nil ready && is_nil run then 1 else 0))
unfolding queue_empty
queue_empty_cases s xss ready run h hr hu = (
  (λ i p ps f. rw (some_waiting-First i h f) refl),
  λ f. rw (some_waiting-Idle h f, empty-Holds hr, empty-Holds hu) refl,
)

reset_levels-Hold :
    {qs : List (Queue Pcb)} {xss : List (List Pcb)}
    → Hold qs xss
    → Hold (reset_levels qs) (replicate (length xss) [])
unfolding reset_levels
reset_levels-Hold no_level = no_level
reset_levels-Hold (level h hs) =
    level
      (record {
        slots = h.slots;
        count = refl;
        bound = omega arith;
        at = λ i x e. ground (arith, e);
      })
      (reset_levels-Hold hs)

replicate-Idle : (n : ℕ) → Idle (replicate n [])
replicate-Idle zero j xs e = ground (arith, e)
replicate-Idle (suc n) zero xs e = ground (arith, e)
replicate-Idle (suc n) (suc j) xs e = replicate-Idle n j xs e

-- After `init_scheduler` no process waits, `get_proc` gives NULL, and `running_list` is as it was.
pub init_scheduler-Idle :
    (s : Sched) (xss : List (List Pcb))
    → Hold s.mlq_ready_queue xss
    → Hold (init_scheduler s).mlq_ready_queue (replicate (length xss) [])
      × (get_proc (init_scheduler s) ≡ ok (none, init_scheduler s))
      × ((init_scheduler s).running_list ≡ s.running_list)
unfolding init_scheduler
init_scheduler-Idle s xss h =
    let h' = reset_levels-Hold h in
    (
      h',
      get_proc-Idle (init_scheduler s) (replicate (length xss) []) h' (replicate-Idle (length xss)),
      refl,
    )
