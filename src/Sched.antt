-- ===== src/Sched.antt =====
-- The scheduler, src/sched.c, as it is compiled with MLQ_SCHED, and include/sched.h. `queue_lock`
-- orders the queue operations; they are run here one after the other.
pub mod Levels
pub mod Policy
pub mod Single
use waguri.Base.{
  ℕ, zero, suc, ◌+◌, ◌-◌, Bool, true, false, ◌&&◌, Option, none, some, List, [], ◌∷◌, ◌==◌,
  if◌then◌else◌, get_elem?, set, replicate, Run, ok, fault, ◌>>=◌, defined,
}
use waguri.Memphy.{failure}
use waguri.Queue.{Queue, empty, enqueue, dequeue}

abbrev pub max_prio : ℕ
max_prio = 140

-- A pointer to a `struct pcb_t`, with the priority of that process, which nothing changes once the
-- process is in a queue.
pub record Pcb : Type 0 where
  pub addr : ℕ
  pub prio : ℕ

-- The static variables of the file.
pub record Sched : Type 0 where
  pub ready_queue : Queue Pcb
  pub run_queue : Queue Pcb
  pub running_list : Queue Pcb
  pub mlq_ready_queue : List (Queue Pcb)
  pub slot : List ℕ

-- The loop of `queue_empty`: whether some level holds a process.
unfoldable pub some_waiting : List (Queue Pcb) → Bool
some_waiting [] = false
some_waiting (q ∷ qs) = if empty q then some_waiting qs else true

-- `queue_empty`
unfoldable pub queue_empty : Sched → ℕ
queue_empty s =
    if some_waiting s.mlq_ready_queue
    then failure
    else if empty s.ready_queue && empty s.run_queue
    then 1
    else 0

-- The loop of `init_scheduler` over the levels: their sizes.
abbrev pub reset : Queue Pcb → Queue Pcb
reset q = record q { size = 0 }

unfoldable pub reset_levels : List (Queue Pcb) → List (Queue Pcb)
reset_levels [] = []
reset_levels (q ∷ qs) = reset q ∷ reset_levels qs

-- `slot[i]` for the levels from `i` on, of which there are `left`.
unfoldable pub slots_from : ℕ → ℕ → List ℕ
slots_from zero i = []
slots_from (suc left) i = (max_prio - i) ∷ slots_from left (i + 1)

-- `init_scheduler`, which leaves `running_list` as it is
unfoldable pub init_scheduler : Sched → Sched
init_scheduler s = record s {
  mlq_ready_queue = reset_levels s.mlq_ready_queue;
  slot = slots_from max_prio 0;
  ready_queue = reset s.ready_queue;
  run_queue = reset s.run_queue;
}

-- The loop of `get_mlq_proc`: the process, and the levels after it was taken.
unfoldable pub mlq_loop : List (Queue Pcb) → Run (Option Pcb × List (Queue Pcb))
mlq_loop [] = ok (none, [])
mlq_loop (q ∷ qs) =
    let below = mlq_loop qs in
    if empty q
    then (do (proc, qs') ← below; ok (proc, q ∷ qs'))
    else (do (proc, q') ← dequeue q; ok (proc, q' ∷ qs))

-- `get_mlq_proc` and `get_proc`
unfoldable pub get_mlq_proc : Sched → Run (Option Pcb × Sched)
get_mlq_proc s = do
  (proc, levels) ← mlq_loop s.mlq_ready_queue
  ok (proc, record s { mlq_ready_queue = levels })

unfoldable pub get_proc : Sched → Run (Option Pcb × Sched)
get_proc s = get_mlq_proc s

-- `put_mlq_proc`, and `add_mlq_proc`, which has the same body
unfoldable pub put_mlq_proc : Sched → Pcb → Run Sched
put_mlq_proc s proc = do
  q ← defined (get_elem? s.mlq_ready_queue proc.prio)
  ok (record s { mlq_ready_queue = set s.mlq_ready_queue proc.prio (enqueue q proc) })

unfoldable pub add_mlq_proc : Sched → Pcb → Run Sched
add_mlq_proc s proc = do
  q ← defined (get_elem? s.mlq_ready_queue proc.prio)
  ok (record s { mlq_ready_queue = set s.mlq_ready_queue proc.prio (enqueue q proc) })

-- `put_proc`, which lists the process as running
unfoldable pub put_proc : Sched → Pcb → Run Sched
put_proc s proc = put_mlq_proc (record s { running_list = enqueue s.running_list proc }) proc

-- `add_proc`
unfoldable pub add_proc : Sched → Pcb → Run Sched
add_proc s proc = add_mlq_proc (record s { running_list = enqueue s.running_list proc }) proc
