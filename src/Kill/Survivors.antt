-- ===== src/Kill/Survivors.antt =====
-- What the loop of src/sys_killall.c over one queue leaves: the queue, and the blocks of the
-- processes.
use waguri.Base.{
  ℕ, suc, ◌≤◌, ◌<◌, ◌≡◌, ◌≢◌, ◌⊎◌, inl, inr, refl, sym, ap, ◌∙◌, arith, Bool, true, false, Option,
  none, some, List, [], ◌∷◌, if◌then◌else◌, length, get_elem?, set, get_elem?-set_self,
  get_elem?-set_ne, lt_of_get_elem?, eq_or_ne, ok,
}
use waguri.Pte.{max_pgn}
use waguri.PageAccess.Giveback.{free_pcb_memph-total}
use waguri.Sched.{Pcb}
use waguri.Machine.{
  Process, System, process_at, put_process, caller_of, put_caller, c_text, same_text,
}
use waguri.Kill.{terminate}

-- A block that exists, whose memory can be given back.
pub record IsAlive (sys : System) (p : Pcb) : Type 0 where
  pub proc : Process
  pub block : get_elem? sys.procs p.addr ≡ some (some proc)
  pub table : max_pgn ≤ length proc.mm.pgd
  pub device : proc.active_mswp < length sys.mswp

abbrev pub AllAlive : System → List Pcb → Type 0
AllAlive sys xs = (i : ℕ) (p : Pcb) → get_elem? xs i ≡ some p → IsAlive sys p

-- The process at the address of `p` has the name.
abbrev pub is_named : List ℕ → Option (Option Process) → Bool
is_named name none = false
is_named name (some none) = false
is_named name (some (some proc)) = same_text proc.path (c_text name)

abbrev pub doomed : List (Option Process) → List ℕ → Pcb → Bool
doomed procs name p = is_named name (get_elem? procs p.addr)

-- The processes of another name, in their order, and how many have the name.
abbrev pub survivors : List (Option Process) → List ℕ → List Pcb → List Pcb
survivors procs name [] = []
survivors procs name (p ∷ ps) =
    let rest = survivors procs name ps in if doomed procs name p then rest else p ∷ rest

abbrev pub kills : List (Option Process) → List ℕ → List Pcb → ℕ
kills procs name [] = 0
kills procs name (p ∷ ps) =
    let rest = kills procs name ps in if doomed procs name p then suc rest else rest

abbrev pub killed : Process → Process
killed proc = record proc { pid = 0 }

-- What the removal of the processes of that name among `xs` leaves of the machine: a process of
-- the name has the number 0 and is otherwise as it was, and every other block is untouched.
pub record Killed (name : List ℕ) (xs : List Pcb) (sys sys' : System) : Type 0 where
  pub sched : sys'.sched ≡ sys.sched
  pub devices : length sys'.mswp ≡ length sys.mswp
  pub dead :
      (i : ℕ) (p : Pcb) (proc : Process)
      → get_elem? xs i ≡ some p
      → get_elem? sys.procs p.addr ≡ some (some proc)
      → same_text proc.path (c_text name) ≡ true
      → get_elem? sys'.procs p.addr ≡ some (some (killed proc))
  pub kept :
      (a : ℕ) (proc : Process)
      → get_elem? sys.procs a ≡ some (some proc)
      → (get_elem? sys'.procs a ≡ some (some proc))
        ⊎ ((get_elem? sys'.procs a ≡ some (some (killed proc)))
            × (same_text proc.path (c_text name) ≡ true))

-- One process is ended.
pub record Ended (a : ℕ) (proc : Process) (sys sys' : System) : Type 0 where
  pub sched : sys'.sched ≡ sys.sched
  pub devices : length sys'.mswp ≡ length sys.mswp
  pub procs : sys'.procs ≡ set sys.procs a (some (killed proc))

pub terminate-Ended :
    (sys : System) (p : Pcb) (h : IsAlive sys p)
    → (sys' : System) × (terminate sys p ≡ ok sys') × Ended p.addr h.proc sys sys'
unfolding terminate process_at put_caller put_process
terminate-Ended sys p h =
    let (caller, run, (space, active, devices)) =
      free_pcb_memph-total (caller_of sys h.proc) h.table h.device in
    (
      put_caller sys p.addr (killed h.proc) caller,
      rw (h.block, run) refl,
      record { sched = refl; devices = devices; procs = rw space refl },
    )

module _ {a : ℕ} {proc : Process} {sys sys' : System} (end : Ended a proc sys sys')
    (here : get_elem? sys.procs a ≡ some (some proc)) where
  pub Ended-self : get_elem? sys'.procs a ≡ some (some (killed proc))
  Ended-self =
      ap (λ l. get_elem? l a) end.procs
      ∙ get_elem?-set_self sys.procs a (some (killed proc)) (lt_of_get_elem? sys.procs a here)

  Ended-other : (b : ℕ) → a ≢ b → get_elem? sys'.procs b ≡ get_elem? sys.procs b
  Ended-other b ne =
      ap (λ l. get_elem? l b) end.procs ∙ get_elem?-set_ne sys.procs a b (some (killed proc)) ne

  pub Ended-doomed : (name : List ℕ) (p : Pcb) → doomed sys'.procs name p ≡ doomed sys.procs name p
  Ended-doomed name p = elim (eq_or_ne a p.addr) [
    | inl e ↦
        ap (λ b. is_named name (get_elem? sys'.procs b)) (sym e)
        ∙ ap (is_named name) Ended-self
        ∙ sym (ap (is_named name) here)
        ∙ ap (λ b. is_named name (get_elem? sys.procs b)) e
    | inr ne ↦ ap (is_named name) (Ended-other p.addr ne)
  ]

  -- The block at another address is untouched, and the one at this address has the number 0.
  pub Ended-cases :
      (b : ℕ) (q : Process)
      → get_elem? sys.procs b ≡ some (some q)
      → (get_elem? sys'.procs b ≡ some (some q))
        ⊎ ((get_elem? sys'.procs b ≡ some (some (killed q))) × (q ≡ proc))
  Ended-cases b q at = elim (eq_or_ne a b) [
    | inr ne ↦ inl (Ended-other b ne ∙ at)
    | inl e ↦
        let same : q ≡ proc = ground (arith, at, here, e) in inr (rw (sym e, same) Ended-self, same)
  ]

  pub Ended-IsAlive : (p : Pcb) → IsAlive sys p → IsAlive sys' p
  Ended-IsAlive p h = elim (Ended-cases p.addr h.proc h.block) [
    | inl at ↦ record {
      proc = h.proc;
      block = at;
      table = h.table;
      device = rw end.devices h.device;
    }
    | inr (at, e) ↦ record {
      proc = killed h.proc;
      block = at;
      table = h.table;
      device = rw end.devices h.device;
    }
  ]
