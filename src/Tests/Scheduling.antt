-- ===== src/Tests/Scheduling.antt =====
-- Examples for queues and the scheduler.
use waguri.Base.{
  ℕ, zero, suc, ◌≡◌, refl, ◌<◌, arith, List, [], ◌∷◌, replicate, set, get_elem?, none, some, ok,
}
use waguri.Queue.{Queue, enqueue, dequeue}
use waguri.Queue.Bounded.{Holds, push, enqueue-Holds, dequeue-Holds}
use waguri.Sched.{Pcb, Sched, get_proc, put_proc}
use waguri.Sched.Levels.{Hold, no_level, level, First, Idle}
use waguri.Sched.Single
use waguri.Sched.Policy.{get_proc-First, put_proc-add_proc}

abbrev one : Pcb
one = record { addr = 1; prio = 1 }

abbrev low : Pcb
low = record { addr = 2; prio = 2 }

abbrev pub none_waiting : Queue Pcb
none_waiting = record { proc = replicate 10 none; size = 0 }

abbrev pub holding : Pcb → Queue Pcb
holding p = record { proc = some p ∷ replicate 9 none; size = 1 }

pub none_waiting-Holds : Holds none_waiting []
none_waiting-Holds = record {
  slots = refl;
  count = refl;
  bound = omega arith;
  at = λ i x e. ground (arith, e);
}

holding-at :
    (p : Pcb) (i : ℕ) (x : Pcb)
    → get_elem? (p ∷ []) i ≡ some x
    → get_elem? (holding p).proc i ≡ some (some x)
holding-at p zero x e = λ i. some (e i)
holding-at p (suc i) x e = ground (arith, e)

pub holding-Holds : (p : Pcb) → Holds (holding p) (p ∷ [])
holding-Holds p = record { slots = refl; count = refl; bound = omega arith; at = holding-at p }

enqueue-Holds_example : Holds (enqueue (holding one) low) (push (one ∷ []) low)
enqueue-Holds_example = enqueue-Holds low (holding-Holds one)

dequeue-Holds_example : (q' : Queue Pcb) × (dequeue (holding one) ≡ ok (some one, q')) × Holds q' []
dequeue-Holds_example = dequeue-Holds (holding-Holds one)

-- Three levels, of which the last holds a process.
abbrev sched : Sched
sched = record {
  ready_queue = none_waiting;
  run_queue = none_waiting;
  running_list = none_waiting;
  mlq_ready_queue = none_waiting ∷ none_waiting ∷ holding low ∷ [];
  slot = [];
}

abbrev waiting : List (List Pcb)
waiting = [] ∷ [] ∷ (low ∷ []) ∷ []

sched-Hold : Hold sched.mlq_ready_queue waiting
sched-Hold =
    level none_waiting-Holds (level none_waiting-Holds (level (holding-Holds low) no_level))

above_low : (j : ℕ) → j < 2 → get_elem? waiting j ≡ some []
above_low zero l = refl
above_low (suc zero) l = refl
above_low (suc (suc j)) l = absurd (omega arith)

low-First : First waiting 2 low []
low-First = record { here = refl; above = above_low }

get_proc-First_example :
    (levels : List (Queue Pcb)) × (get_proc sched
      ≡ ok (some low, record sched { mlq_ready_queue = levels }))
    × Hold levels ([] ∷ [] ∷ [] ∷ [])
get_proc-First_example = get_proc-First sched waiting 2 low [] sched-Hold low-First

abbrev no_process : Sched
no_process = record sched { mlq_ready_queue = none_waiting ∷ [] }

no_process-Idle : Idle ([] ∷ [])
no_process-Idle zero xs e = ground (arith, e)
no_process-Idle (suc j) xs e = ground (arith, e)

put_proc-add_proc_example :
    (s' : Sched) × (put_proc sched one ≡ ok s')
    × Hold s'.mlq_ready_queue (set waiting 1 (push [] one))
    × Holds s'.running_list (push [] one)
put_proc-add_proc_example =
    (put_proc-add_proc sched waiting [] one sched-Hold none_waiting-Holds).1 [] refl

abbrev calls : List Single.Call
calls = Single.adds one ∷ Single.puts one ∷ Single.adds low ∷ []

get_proc-starves_example :
    (Single.get_proc (Single.after (Single.init_scheduler sched) calls)
      ≡ ok (none, Single.after (Single.init_scheduler sched) calls))
    × Holds (Single.after (Single.init_scheduler sched) calls).running_list (one ∷ one ∷ low ∷ [])
unfolding push
get_proc-starves_example = Single.get_proc-starves sched [] calls none_waiting-Holds
