-- ===== src/Kill.antt =====
-- `__sys_killall` of src/sys_killall.c, as it is compiled with MLQ_SCHED and MM_PAGING.
pub mod Name
pub mod Race
pub mod Survivors
pub mod Sweep
pub mod Levels
use waguri.Base.{
  ℕ, zero, suc, ◌+◌, ◌-◌, ◌%◌, ◌++◌, Bool, true, false, Option, none, some, List, [], ◌∷◌, ◌==◌,
  if◌then◌else◌, get_elem?, Run, ok, fault, ◌>>=◌, defined,
}
use waguri.Memphy.{failure}
use waguri.Mm.{Caller}
use waguri.PageAccess.{libread, free_pcb_memph}
use waguri.Queue.{Queue, shift_loop}
use waguri.Sched.{Pcb, Sched}
use waguri.Machine.{
  Process, System, process_at, put_process, caller_of, put_caller, c_text, same_text,
}

-- `data` after a call of `libread`, which writes it only when it succeeds
abbrev pub read_data : ℕ → Option ℕ → ℕ → Run ℕ
read_data val stored old = if val == 0 then defined stored else ok old

-- `proc_name[i]` for `data`, read as a `char`
abbrev pub name_byte : ℕ → ℕ
name_byte value = if value == failure then 0 else value % 256

-- The loop that reads the name, from index `i` with `left` places to go in `proc_name`: the bytes
-- that it writes. A byte past the end of the array is undefined.
unfoldable pub name_loop : ℕ → ℕ → ℕ → ℕ → Caller → Run (List ℕ × Caller)
name_loop zero i memrg old caller = fault
name_loop (suc left) i memrg old caller = do
  (val, stored, caller') ← libread caller memrg i
  value ← read_data val stored old
  let more = (do
    (bytes, caller'') ← name_loop left (i + 1) memrg value caller'
    ok (name_byte value ∷ bytes, caller''))
  if value == failure then ok (name_byte value ∷ [], caller') else more

abbrev pub name_size : ℕ
name_size = 100

-- `proc != NULL && strcmp(proc->path, proc_name) == 0`: the process that is to end.
unfoldable pub find_match : System → List ℕ → Option Pcb → Run (Option Pcb)
unfolding process_at same_text
find_match sys name none = ok none
find_match sys name (some p) = do
  proc ← process_at sys p.addr
  ok (if same_text proc.path (c_text name) then some p else none)

-- Its memory is given back and its number becomes 0.
unfoldable pub terminate : System → Pcb → Run System
unfolding process_at put_caller
terminate sys p = do
  proc ← process_at sys p.addr
  (code, caller) ← free_pcb_memph (caller_of sys proc)
  ok (put_caller sys p.addr (record proc { pid = 0 }) caller)

-- The loop over a queue from index `i`, with `left` processes to go: the queue, the machine, and
-- `count`.
unfoldable pub kill_loop : ℕ → ℕ → List ℕ → Queue Pcb → System → ℕ → Run (Queue Pcb × System × ℕ)
unfolding find_match terminate
kill_loop zero i name q sys count = ok (q, sys, count)
kill_loop (suc left) i name q sys count = do
  slot ← defined (get_elem? q.proc i)
  found ← find_match sys name slot
  elim found [
    | none ↦ kill_loop left (i + 1) name q sys count
    | some p ↦ do
      sys' ← terminate sys p
      shifted ← shift_loop (q.size - 1 - i) (i + 1) q.proc
      kill_loop left i name (record { proc = shifted; size = q.size - 1 }) sys' (count + 1)
  ]

-- The loop over the levels of the scheduler
unfoldable pub kill_levels :
    List ℕ → List (Queue Pcb) → System → ℕ → Run (List (Queue Pcb) × System × ℕ)
unfolding kill_loop
kill_levels name [] sys count = ok ([], sys, count)
kill_levels name (q ∷ qs) sys count = do
  (q', sys', count') ← kill_loop q.size 0 name q sys count
  (qs', sys'', count'') ← kill_levels name qs sys' count'
  ok (q' ∷ qs', sys'', count'')

-- What follows the reading of the name. The pointers to the queues that the caller's block holds
-- are those to the scheduler's static variables.
unfoldable pub kill_named : System → List ℕ → Run (ℕ × System)
unfolding kill_levels
kill_named sys name = do
  (running, sys₁, count₁) ←
      kill_loop sys.sched.running_list.size 0 name sys.sched.running_list sys 0
  (levels, sys₂, count₂) ← kill_levels name sys₁.sched.mlq_ready_queue sys₁ count₁
  ok (
    count₂,
    record sys₂ { sched = record sys₂.sched { running_list = running; mlq_ready_queue = levels } },
  )

-- `__sys_killall` called by the process at `addr`, with `regs->a1`
unfoldable pub sys_killall : System → ℕ → ℕ → Run (ℕ × System)
unfolding name_loop kill_named process_at put_caller
sys_killall sys addr memrg = do
  proc ← process_at sys addr
  (name, caller) ← name_loop name_size 0 memrg 0 (caller_of sys proc)
  kill_named (put_caller sys addr proc caller) name
