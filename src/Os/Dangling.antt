-- ===== src/Os/Dangling.antt =====
-- Blocks that src/os.c frees while `running_list` of src/sched.c still points to them.
use waguri.Base.{
  ℕ, ◌≡◌, refl, arith, none, some, List, ◌∷◌, ==_refl, get_elem?, get_elem?-set_self,
  lt_of_get_elem?, ok, fault,
}
use waguri.Queue.Bounded.{Holds}
use waguri.Sched.{Pcb}
use waguri.Sched.Levels.{Hold, Idle}
use waguri.Machine.{Process, System, process_at}
use waguri.Kill.{find_match, kill_loop, kill_named}
use waguri.Os.{slept, without_block, recheck, turn_body, cpu_turn}
use waguri.Os.Idle.{take_proc-Idle}
use waguri.Os.Slice.{on}

-- With a freed block at the head of `running_list`, killall follows a pointer to it.
kill_named-freed :
    (sys : System) (name : List ℕ) (p : Pcb) (xs : List Pcb)
    → Holds sys.sched.running_list (p ∷ xs)
    → get_elem? sys.procs p.addr ≡ some none
    → kill_named sys name ≡ fault
unfolding kill_named kill_loop find_match process_at
kill_named-freed sys name p xs h gone = rw (h.count, h.at 0 p refl, gone) refl

-- A process that has finished and is the oldest of `running_list`, with no process waiting: the
-- turn of its processor frees its block, `running_list` keeps the pointer to it, and a killall of any
-- name then follows that pointer.
pub cpu_turn-dangles :
    (time_slot left : ℕ) (sys : System) (xss : List (List Pcb)) (p : Pcb) (xs : List Pcb)
    (proc : Process)
    → Hold sys.sched.mlq_ready_queue xss
    → Idle xss
    → Holds sys.sched.running_list (p ∷ xs)
    → process_at sys p.addr ≡ ok proc
    → proc.pc ≡ proc.code_size
    → (sys' : System) × (cpu_turn time_slot 0 sys (on p left)
        ≡ ok (slept, sys', record { proc = none; time_left = 0 }))
      × (sys'.sched ≡ sys.sched)
      × ((name : List ℕ) → kill_named sys' name ≡ fault)
unfolding cpu_turn turn_body recheck process_at
cpu_turn-dangles time_slot left sys xss p xs proc h idle hr here over =
    let at : get_elem? sys.procs p.addr ≡ some (some proc) = ground (arith, here) in
    let sys' = without_block sys p.addr in
    (
      sys',
      rw (here, over, ==_refl proc.code_size, take_proc-Idle sys' xss h idle) refl,
      refl,
      λ name.
          kill_named-freed sys' name p xs hr
            (get_elem?-set_self sys.procs p.addr none (lt_of_get_elem? sys.procs p.addr at)),
    )
