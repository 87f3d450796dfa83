-- ===== src/Os/Entering.antt =====
-- How the loader's thread of src/os.c hands a process to the scheduler.
use waguri.Base.{
  ◌<◌, ℕ, ◌≤◌, ◌≡◌, refl, sym, ◌∙◌, arith, lt_of_get_elem?, some, List, [], ◌∷◌, ◌++◌, length,
  get_elem?, set, le→ltb, get_elem?-middle, get_elem?-append_left, get_elem?-set_self,
  get_elem?-set_ne, ok,
}
use waguri.Mm.{init_mm}
use waguri.Queue.{Queue}
use waguri.Queue.Bounded.{Holds, push}
use waguri.Sched.{Pcb, Sched}
use waguri.Sched.Levels.{Hold}
use waguri.Sched.Policy.{put_proc-add_proc, get_proc-First}
use waguri.Machine.{Process, System, process_at}
use waguri.Os.{slept, Entry, ld_turn, take_proc}

-- The process of an entry as it enters the system.
abbrev pub entered : Entry → Process
entered e = record e.proc { mm = init_mm e.proc.mm e.words; active_mswp = 0 }

abbrev pub pcb_of : System → Entry → Pcb
pcb_of sys e = record { addr = length sys.procs; prio = e.prio }

abbrev pub with_process : System → Entry → Sched → System
with_process sys e sched = record sys { sched = sched; procs = sys.procs ++ some (entered e) ∷ [] }

-- An entry whose time has come: the process gets an address of its own, where its block stands with a
-- new address space, and goes to the end of its level and of `running_list`, each of which drops it when ten are there;
-- the other blocks and levels stay.
pub ld_turn-enters :
    (now : ℕ) (e : Entry) (es : List Entry) (sys : System) (xss : List (List Pcb))
    (xs running : List Pcb)
    → Hold sys.sched.mlq_ready_queue xss
    → Holds sys.sched.running_list running
    → e.start_time ≤ now
    → get_elem? xss e.prio ≡ some xs
    → (sched : Sched) × (ld_turn now (e ∷ es) sys ≡ ok (slept, es, with_process sys e sched))
      × Hold sched.mlq_ready_queue (set xss e.prio (push xs (pcb_of sys e)))
      × Holds sched.running_list (push running (pcb_of sys e))
      × (process_at (with_process sys e sched) (length sys.procs) ≡ ok (entered e))
      × ((a : ℕ) (p : Process)
          → process_at sys a ≡ ok p
          → process_at (with_process sys e sched) a ≡ ok p)
unfolding ld_turn process_at
ld_turn-enters now e es sys xss xs running h hr time level =
    let (same, put, past) = put_proc-add_proc sys.sched xss running (pcb_of sys e) h hr in
    let (sched, ran, h', hr') = put xs level in
    (
      sched,
      rw (le→ltb now e.start_time time, sym same ∙ ran) refl,
      h',
      hr',
      rw (get_elem?-middle sys.procs (some (entered e)) []) refl,
      λ a p at.
          let block : get_elem? sys.procs a ≡ some (some p) = ground (arith, at) in
          rw
            (
              get_elem?-append_left sys.procs (some (entered e) ∷ []) a
                  (lt_of_get_elem? sys.procs a block),
              block,
            )
            refl,
    )

-- An entry whose time has come, when its level and those before it are empty: its process is the next that a processor
-- takes, which leaves its level empty again.
pub ld_turn-next :
    (now : ℕ) (e : Entry) (es : List Entry) (sys : System) (xss : List (List Pcb))
    (running : List Pcb)
    → Hold sys.sched.mlq_ready_queue xss
    → Holds sys.sched.running_list running
    → e.start_time ≤ now
    → e.prio < length xss
    → ((j : ℕ) → j ≤ e.prio → get_elem? xss j ≡ some [])
    → (sched : Sched) × (levels : List (Queue Pcb)) × (ld_turn now (e ∷ es) sys
        ≡ ok (slept, es, with_process sys e sched))
      × (take_proc (with_process sys e sched)
          ≡ ok
              (some (pcb_of sys e), with_process sys e (record sched { mlq_ready_queue = levels })))
      × Hold levels (set (set xss e.prio (pcb_of sys e ∷ [])) e.prio [])
unfolding take_proc push
ld_turn-next now e es sys xss running h hr time lt above =
    let (sched, ran, h', hr', new, old) =
      ld_turn-enters now e es sys xss [] running h hr time (above e.prio (omega arith)) in
    let (levels, got, h'') =
      get_proc-First sched (set xss e.prio (pcb_of sys e ∷ [])) e.prio (pcb_of sys e) [] h'
        (record {
          here = get_elem?-set_self xss e.prio (pcb_of sys e ∷ []) lt;
          above = λ j l.
              get_elem?-set_ne xss e.prio j (pcb_of sys e ∷ []) (λ q. omega arith)
              ∙ above j (omega arith);
        }) in
    (sched, levels, ran, rw got refl, h'')
