-- ===== src/Sched/Single.antt =====
-- The scheduler of src/sched.c as it is compiled without MLQ_SCHED.
use waguri.Base.{◌≡◌, refl, true, Option, none, List, [], ◌∷◌, if◌then◌else◌, Run, ok, ◌>>=◌}
use waguri.Queue.{empty, enqueue, dequeue}
use waguri.Queue.Bounded.{Holds, push, enqueue-Holds}
use waguri.Sched.{Pcb, Sched}

-- `get_proc`
unfoldable pub get_proc : Sched → Run (Option Pcb × Sched)
get_proc s =
    let taken = (do (proc, q) ← dequeue s.ready_queue; ok (proc, record s { ready_queue = q })) in
    if empty s.ready_queue then ok (none, s) else taken

-- `put_proc`, and `add_proc`, which has the same body
unfoldable pub put_proc : Sched → Pcb → Sched
put_proc s proc = record s { running_list = enqueue s.running_list proc }

unfoldable pub add_proc : Sched → Pcb → Sched
add_proc s proc = record s { running_list = enqueue s.running_list proc }

-- `init_scheduler`
unfoldable pub init_scheduler : Sched → Sched
init_scheduler s = record s {
  ready_queue = record s.ready_queue { size = 0 };
  run_queue = record s.run_queue { size = 0 };
}

-- Calls of `add_proc` and `put_proc`, one after the other
pub data Call : Type 0 where
  adds : Pcb → Call
  puts : Pcb → Call

abbrev pub proc_of : Call → Pcb
proc_of (adds p) = p
proc_of (puts p) = p

abbrev pub after_call : Sched → Call → Sched
after_call s (adds p) = add_proc s p
after_call s (puts p) = put_proc s p

abbrev pub after : Sched → List Call → Sched
after s [] = s
after s (c ∷ cs) = after (after_call s c) cs

abbrev pub pushes : List Pcb → List Call → List Pcb
pushes running [] = running
pushes running (c ∷ cs) = pushes (push running (proc_of c)) cs

after-idle :
    (s : Sched) (running : List Pcb) (cs : List Call)
    → empty s.ready_queue ≡ true
    → Holds s.running_list running
    → (get_proc (after s cs) ≡ ok (none, after s cs))
      × Holds (after s cs).running_list (pushes running cs)
unfolding get_proc put_proc add_proc
after-idle s running [] e h = (rw e refl, h)
after-idle s running (adds p ∷ cs) e h =
    after-idle (add_proc s p) (push running p) cs e (enqueue-Holds p h)
after-idle s running (puts p ∷ cs) e h =
    after-idle (put_proc s p) (push running p) cs e (enqueue-Holds p h)

-- Without MLQ_SCHED no process ever runs: whatever processes are added and put back after the
-- scheduler was set up, `get_proc` gives NULL and changes nothing; they are all on `running_list`, as far as that has room.
pub get_proc-starves :
    (s : Sched) (running : List Pcb) (cs : List Call)
    → Holds s.running_list running
    → (get_proc (after (init_scheduler s) cs) ≡ ok (none, after (init_scheduler s) cs))
      × Holds (after (init_scheduler s) cs).running_list (pushes running cs)
unfolding init_scheduler empty
get_proc-starves s running cs h = after-idle (init_scheduler s) running cs refl h
