-- ===== src/Tests/Killing.antt =====
-- Examples for killall, with one process, whose memory cells hold the byte 7.
use waguri.Base.{
  ℕ, zero, suc, ◌+◌, ◌≡◌, ◌≤◌, ◌<◌, refl, sym, ◌∙◌, arith, List, [], ◌∷◌, replicate, length,
  length-replicate, get_elem?, get_elem?-replicate, set, length-set, get_elem?-set_ne,
  get_elem?-set_self, null, cons, some, none, ok, fault,
}
use waguri.Cint.{sext_char}
use waguri.Pte.{max_pgn, fpn_of, pgn_of, offst_of, phyaddr}
use waguri.Pte.Arith.{fpn_of_lem, pgn_of_lem, offst_of_lem, phyaddr_lem, page_present_lem}
use waguri.Mm.{Caller}
use waguri.PageAccess.{region_addr, libread}
use waguri.PageAccess.Present.{InRam}
use waguri.PageAccess.Region.{HasRegion, libread-InRam}
use waguri.Queue.{Queue}
use waguri.Queue.Bounded.{Holds}
use waguri.Sched.{Pcb}
use waguri.Sched.Levels.{Hold, no_level, level}
use waguri.Machine.{Opcode, Inst, Process, System, process_at, put_caller, same_text, put_process}
use waguri.Cpu.{stepped, run}
use waguri.Cpu.Access.{run-read}
use waguri.Kill.{kill_named, sys_killall}
use waguri.Kill.Name.{Spelled, no_more, byte, sys_killall-Spelled, sys_killall-overrun}
use waguri.Kill.Survivors.{IsAlive, AllAlive, Killed}
use waguri.Kill.Levels.{LevelsAlive, kill_named-Hold}
use waguri.Tests.Data.{ram, ram-IsRandom, only_area, entry_one, entry_one-frame, space, process}
use waguri.Tests.Scheduling.{none_waiting, holding, none_waiting-Holds, holding-Holds}

abbrev pub calculation : Inst
calculation = record {
  opcode = Opcode.calc;
  arg_0 = none;
  arg_1 = none;
  arg_2 = none;
  arg_3 = none;
}

-- A process of two calculations, at path "p", with the given page table and program counter
abbrev pub worker : List ℕ → ℕ → Process
worker pgd pc = record {
  pid = 1;
  path = 112 ∷ [];
  text = calculation ∷ calculation ∷ [];
  code_size = 2;
  pc = pc;
  regs = [];
  bp = 1024;
  mm = record (space null) { pgd = pgd };
  active_mswp = 0;
  active_mswp_id = 0;
}

abbrev pub boss : Pcb
boss = record { addr = 0; prio = 1 }

-- The process runs, and waits in the second of two levels if the queue given holds it.
abbrev pub machine : Process → Queue Pcb → System
machine p q = record {
  sched = record {
    ready_queue = none_waiting;
    run_queue = none_waiting;
    running_list = holding boss;
    mlq_ready_queue = none_waiting ∷ q ∷ [];
    slot = [];
  };
  mram = ram null;
  mswp = ram (cons 1 null) ∷ [];
  procs = some p ∷ [];
}

abbrev whole_table : List ℕ
whole_table = replicate max_pgn 0

abbrev twice : System
twice = machine (worker whole_table 0) (holding boss)

boss-IsAlive : IsAlive twice boss
boss-IsAlive = record {
  proc = worker whole_table 0;
  block = refl;
  table = omega (arith, length-replicate {A = ℕ} max_pgn 0);
  device = omega arith;
}

boss-AllAlive : AllAlive twice (boss ∷ [])
boss-AllAlive zero p e = rw (ok_boss e) boss-IsAlive
  where
    ok_boss : {q : Pcb} → get_elem? (boss ∷ []) 0 ≡ some q → q ≡ boss
    ok_boss e = ground (arith, e)
boss-AllAlive (suc i) p e = ground (arith, e)

levels-LevelsAlive : LevelsAlive twice ([] ∷ (boss ∷ []) ∷ [])
levels-LevelsAlive zero xs e i p e' = ground (arith, e, e')
levels-LevelsAlive (suc zero) xs e i p e' =
    let only : xs ≡ boss ∷ [] = ground (arith, e) in
    let at : get_elem? (boss ∷ []) i ≡ some p = rw (sym only) e' in boss-AllAlive i p at
levels-LevelsAlive (suc (suc j)) xs e i p e' = ground (arith, e)

-- The process is counted twice.
kill_named-Hold_example :
    (running : Queue Pcb) × (levels : List (Queue Pcb)) × (last : System) × (kill_named twice
        (112 ∷ 0 ∷ [])
      ≡ ok (
        2,
        record last {
          sched = record twice.sched { running_list = running; mlq_ready_queue = levels };
        },
      ))
    × Holds running []
    × Hold levels ([] ∷ [] ∷ [])
    × Killed (112 ∷ 0 ∷ []) (boss ∷ boss ∷ []) twice last
unfolding same_text
kill_named-Hold_example =
    kill_named-Hold (112 ∷ 0 ∷ []) twice (holding-Holds boss)
      (level none_waiting-Holds (level (holding-Holds boss) no_level)) boss-AllAlive
      levels-LevelsAlive

-- The cells hold 7, but the one of offset 1, which holds 255.
abbrev cells : List ℕ
cells = set (replicate 512 7) 257 255

abbrev spelling : List ℕ → Caller
spelling storage = record (process null null) { mram = record (ram null) { storage = storage } }

abbrev place : ℕ → ℕ
place i = region_addr (record { rg_start = 0; rg_end = 100 }) i

place_lem : (i : ℕ) → i < 256 → place i ≡ i
place_lem i lt = ground arith

near :
    (storage : List ℕ) (i : ℕ)
    → length storage ≡ 512
    → i < 256
    → InRam (spelling storage) (place i) entry_one
near storage i len lt =
    let page : pgn_of (place i) ≡ 0 = omega (arith, pgn_of_lem (place i), place_lem i lt) in
    record {
      entry = rw page refl;
      present = rw (page_present_lem entry_one (omega arith)) refl;
      valid = record { cells = len; small = omega arith };
      random = ram-IsRandom null;
      frame = entry_one-frame;
    }

cell_at :
    (storage : List ℕ) (i value : ℕ)
    → i < 256
    → get_elem? storage (256 + i) ≡ some value
    → get_elem? storage (phyaddr (fpn_of entry_one) (offst_of (place i))) ≡ some value
cell_at storage i value lt at =
    let cell : phyaddr (fpn_of entry_one) (offst_of (place i)) ≡ 256 + i = omega (
      arith,
      phyaddr_lem (fpn_of entry_one) (offst_of (place i)),
      fpn_of_lem entry_one,
      offst_of_lem (place i),
      place_lem i lt,
    ) in
    rw cell at

third-HasRegion :
    (storage : List ℕ)
    → HasRegion (spelling storage) 3 (record { rg_start = 0; rg_end = 100 }) only_area null
third-HasRegion storage = record { area = refl; named = refl; listed = refl; below = omega arith }

read_at :
    (storage : List ℕ) (i value : ℕ)
    → length storage ≡ 512
    → i < 256
    → value < 256
    → get_elem? storage (256 + i) ≡ some value
    → libread (spelling storage) 3 i ≡ ok (0, some (sext_char value), spelling storage)
read_at storage i value len lt small at =
    libread-InRam (spelling storage) 3 i value entry_one (record { rg_start = 0; rg_end = 100 })
      only_area null small (third-HasRegion storage) (near storage i len lt)
      (cell_at storage i value lt at)

cells-length : length cells ≡ 512
cells-length = length-set {A = ℕ} (replicate 512 7) 257 255 ∙ length-replicate {A = ℕ} 512 7

abbrev page_one : List ℕ
page_one = entry_one ∷ 0 ∷ 0 ∷ 0 ∷ []

-- The machine with these cells
abbrev spelled : System
spelled = record (machine (worker page_one 0) none_waiting) {
  mram = record (ram null) { storage = cells };
}

-- The name is the byte 7, which the cell before the one with 255 holds.
sys_killall-Spelled_example :
    sys_killall spelled 0 3
    ≡ kill_named (put_caller spelled 0 (worker page_one 0) (spelling cells)) (7 ∷ 0 ∷ [])
unfolding process_at
sys_killall-Spelled_example =
    sys_killall-Spelled spelled 0 3 (worker page_one 0) refl 1 (7 ∷ []) (omega arith)
      (byte
        (read_at cells 0 7 cells-length (omega arith) (omega arith) (
          get_elem?-set_ne (replicate 512 7) 257 256 255 (λ e. omega arith)
          ∙ get_elem?-replicate 512 256 7 (omega arith)))
        (λ e. omega arith) no_more)
      (read_at cells 1 255 cells-length (omega arith) (omega arith) (
        get_elem?-set_self (replicate 512 7) 257 255
          (omega (arith, length-replicate {A = ℕ} 512 7))))

-- The region of a machine whose cells all hold 7
sevens :
    (k i : ℕ)
    → i + k ≤ 256
    → Spelled 3 (spelling (replicate 512 7)) i (replicate k 7) (i + k) (spelling (replicate 512 7))
sevens zero i le = let e : i + 0 ≡ i = omega arith in rw e no_more
sevens (suc k) i le =
    let e : i + suc k ≡ i + 1 + k = omega arith in
    rw e (
      byte
        (read_at (replicate 512 7) i 7 (length-replicate {A = ℕ} 512 7) (omega arith) (omega arith)
          (get_elem?-replicate 512 (256 + i) 7 (omega arith)))
        (λ q. omega arith) (sevens k (i + 1) (omega arith)))

sys_killall-overrun_example : sys_killall (machine (worker page_one 0) none_waiting) 0 3 ≡ fault
unfolding process_at
sys_killall-overrun_example =
    sys_killall-overrun (machine (worker page_one 0) none_waiting) 0 3 (worker page_one 0) refl 100
      (replicate 100 7) (omega (arith, length-replicate {A = ℕ} 100 7)) (sevens 100 0 (omega arith))

abbrev nth : ℕ → Pcb
nth i = record { addr = i; prio = 1 }

abbrev four : List Pcb
four = boss ∷ nth 1 ∷ nth 2 ∷ nth 3 ∷ []

abbrev queue_of_four : Queue Pcb
queue_of_four = record {
  proc = some boss ∷ some (nth 1) ∷ some (nth 2) ∷ some (nth 3) ∷ replicate 6 none;
  size = 4;
}

-- The byte of region 3 at offset 1, to register 2
abbrev reading : Inst
reading = record {
  opcode = Opcode.read;
  arg_0 = some 3;
  arg_1 = some 1;
  arg_2 = some 2;
  arg_3 = none;
}

abbrev reader : Process
reader = record (worker page_one 0) { text = reading ∷ []; code_size = 1 }

abbrev at_read : System
at_read = record (machine reader none_waiting) { mram = record (ram null) { storage = cells } }

run-read_example : run at_read 0 ≡ ok (0, put_process at_read 0 (stepped reader))
unfolding process_at
run-read_example =
    run-read at_read 0 3 1 255 entry_one reader reading (record { rg_start = 0; rg_end = 100 })
      only_area null refl (omega arith) refl refl refl refl (omega arith) (third-HasRegion cells)
      (near cells 1 cells-length (omega arith))
      (cell_at cells 1 255 (omega arith) (
        get_elem?-set_self (replicate 512 7) 257 255
          (omega (arith, length-replicate {A = ℕ} 512 7))))
