-- ===== src/Cpu/Code.antt =====
-- No instruction changes the code of a process, and none but its own moves its program counter.
use waguri.Base.{
  ℕ, zero, suc, ◌+◌, ◌-◌, ◌≡◌, inl, inr, refl, sym, ap, ◌∙◌, arith, Option, none, some, List, [],
  ◌∷◌, eq_or_ne, get_elem?, get_elem?-set_self, get_elem?-set_ne, lt_of_get_elem?, ok, ◌>>=◌,
  >>=-eq-ok, ok-injective, defined,
}
use waguri.Mm.{Caller}
use waguri.PageAccess.{free_pcb_memph}
use waguri.Queue.{Queue, shift_loop}
use waguri.Sched.{Pcb}
use waguri.Machine.{Process, System, process_at, put_process, caller_of, put_caller}
use waguri.Kill.{
  find_match, terminate, name_loop, name_size, kill_loop, kill_levels, kill_named, sys_killall,
}

-- The second process has the code and the program counter of the first.
pub record SameCode (p q : Process) : Type 0 where
  pub text : q.text ≡ p.text
  pub code_size : q.code_size ≡ p.code_size
  pub pc : q.pc ≡ p.pc

-- Every block keeps its code and its program counter.
pub record AllSame (sys sys' : System) : Type 0 where
  pub at :
      (a : ℕ) (p : Process)
      → get_elem? sys.procs a ≡ some (some p)
      → (q : Process) × (get_elem? sys'.procs a ≡ some (some q)) × SameCode p q

pub SameCode-refl : (p : Process) → SameCode p p
SameCode-refl p = record { text = refl; code_size = refl; pc = refl }

pub AllSame-refl : (sys : System) → AllSame sys sys
AllSame-refl sys = record { at = λ a p e. (p, e, SameCode-refl p) }

pub AllSame-trans : {r s t : System} → AllSame r s → AllSame s t → AllSame r t
AllSame-trans f g = record {
  at = λ a p e.
      let (q, e', same) = f.at a p e in
      let (u, e'', same') = g.at a q e' in
      (
        u,
        e'',
        record {
          text = same'.text ∙ same.text;
          code_size = same'.code_size ∙ same.code_size;
          pc = same'.pc ∙ same.pc;
        },
      );
}

-- A block is replaced by one with the same code.
pub put_caller-AllSame :
    (sys : System) (addr : ℕ) (old new : Process) (caller : Caller)
    → process_at sys addr ≡ ok old
    → SameCode old new
    → AllSame sys (put_caller sys addr new caller)
unfolding put_caller put_process process_at
put_caller-AllSame sys addr old new caller here same = record {
  at = λ a p e. elim (eq_or_ne addr a) [
    | inl eq ↦
        let at : get_elem? sys.procs addr ≡ some (some p) = rw eq e in
        let is : old ≡ p = ground (arith, here, at) in
        (
          record new { mm = caller.mm },
          rw (sym eq) (
              get_elem?-set_self sys.procs addr (some (record new { mm = caller.mm }))
                (lt_of_get_elem? sys.procs addr at)),
          record {
            text = same.text ∙ ap (λ r. r.text) is;
            code_size = same.code_size ∙ ap (λ r. r.code_size) is;
            pc = same.pc ∙ ap (λ r. r.pc) is;
          },
        )
    | inr ne ↦ (
      p,
      get_elem?-set_ne sys.procs addr a (some (record new { mm = caller.mm })) ne ∙ e,
      SameCode-refl p,
    )
  ];
}

terminate-AllSame :
    (sys : System) (p : Pcb) {sys' : System} → terminate sys p ≡ ok sys' → AllSame sys sys'
unfolding terminate
terminate-AllSame sys p {sys'} run =
    let (proc, here, run₁) = >>=-eq-ok (process_at sys p.addr) _ run in
    let ((code, caller), freed, run₂) = >>=-eq-ok (free_pcb_memph (caller_of sys proc)) _ run₁ in
    rw (sym (ok-injective run₂)) (
      put_caller-AllSame sys p.addr proc (record proc { pid = 0 }) caller here
        (record { text = refl; code_size = refl; pc = refl }))

-- What the ending of a process keeps, the loop over a queue keeps.
module _ (Keeps : System → System → Type 0) (same : (sys : System) → Keeps sys sys)
    (both : (r s t : System) → Keeps r s → Keeps s t → Keeps r t)
    (ends : (sys : System) (p : Pcb) (sys' : System)
      → terminate sys p ≡ ok sys'
      → Keeps sys sys') where
  pub kill_loop-Keeps :
      (left i : ℕ) (name : List ℕ) (q : Queue Pcb) (sys : System) (count : ℕ) {q' : Queue Pcb}
      {sys' : System} {count' : ℕ}
      → kill_loop left i name q sys count ≡ ok (q', sys', count')
      → Keeps sys sys'
  unfolding kill_loop
  kill_loop-Keeps zero i name q sys count {sys'} run =
      rw (sym (ap (λ r. r.1) (ok-injective run))) (same sys)
  kill_loop-Keeps (suc left) i name q sys count {q'} {sys'} {count'} run =
      let (slot, at, run₁) = >>=-eq-ok (defined (get_elem? q.proc i)) _ run in
      let (found, match, run₂) = >>=-eq-ok (find_match sys name slot) _ run₁ in
      go found run₂ (kill_loop-Keeps left (i + 1) name q sys count)
        (λ r next. kill_loop-Keeps left i name r next (count + 1))
    where
      go :
          (found : Option Pcb)
          → (elim found [
            | none ↦ kill_loop left (i + 1) name q sys count
            | some p ↦ do
              sys' ← terminate sys p
              shifted ← shift_loop (q.size - 1 - i) (i + 1) q.proc
              kill_loop left i name (record { proc = shifted; size = q.size - 1 }) sys' (count + 1)
          ])
            ≡ ok (q', sys', count')
          → (kill_loop left (i + 1) name q sys count ≡ ok (q', sys', count') → Keeps sys sys')
          → ((r : Queue Pcb) (next : System)
              → kill_loop left i name r next (count + 1) ≡ ok (q', sys', count')
              → Keeps next sys')
          → Keeps sys sys'
      go none run₂ skip more = skip run₂
      go (some p) run₂ skip more =
          let (next, ended, run₃) = >>=-eq-ok (terminate sys p) _ run₂ in
          let (shifted, moved, run₄) =
            >>=-eq-ok (shift_loop (q.size - 1 - i) (i + 1) q.proc) _ run₃ in
          both sys next sys' (ends sys p next ended)
            (more (record { proc = shifted; size = q.size - 1 }) next run₄)

kill_loop-AllSame :
    (left i : ℕ) (name : List ℕ) (q : Queue Pcb) (sys : System) (count : ℕ) {q' : Queue Pcb}
    {sys' : System} {count' : ℕ}
    → kill_loop left i name q sys count ≡ ok (q', sys', count')
    → AllSame sys sys'
kill_loop-AllSame =
    kill_loop-Keeps AllSame AllSame-refl (λ r s t. AllSame-trans)
      (λ sys p s. terminate-AllSame sys p)

kill_levels-AllSame :
    (name : List ℕ) (qs : List (Queue Pcb)) (sys : System) (count : ℕ) {qs' : List (Queue Pcb)}
    {sys' : System} {count' : ℕ}
    → kill_levels name qs sys count ≡ ok (qs', sys', count')
    → AllSame sys sys'
unfolding kill_levels
kill_levels-AllSame name [] sys count run =
    rw (sym (ap (λ r. r.1) (ok-injective run))) (AllSame-refl sys)
kill_levels-AllSame name (q ∷ qs) sys count run =
    let ((q₁, sys₁, count₁), one, run₁) = >>=-eq-ok (kill_loop q.size 0 name q sys count) _ run in
    let ((qs₂, sys₂, count₂), others, run₂) = >>=-eq-ok (kill_levels name qs sys₁ count₁) _ run₁ in
    rw (sym (ap (λ r. r.1) (ok-injective run₂))) (
      AllSame-trans (kill_loop-AllSame q.size 0 name q sys count one)
        (kill_levels-AllSame name qs sys₁ count₁ others))

kill_named-AllSame :
    (sys : System) (name : List ℕ) {n : ℕ} {sys' : System}
    → kill_named sys name ≡ ok (n, sys')
    → AllSame sys sys'
unfolding kill_named
kill_named-AllSame sys name run =
    let ((q₁, sys₁, count₁), one, run₁) =
      >>=-eq-ok (kill_loop sys.sched.running_list.size 0 name sys.sched.running_list sys 0) _ run in
    let ((qs₂, sys₂, count₂), others, run₂) =
      >>=-eq-ok (kill_levels name sys₁.sched.mlq_ready_queue sys₁ count₁) _ run₁ in
    let both =
      AllSame-trans
        (kill_loop-AllSame sys.sched.running_list.size 0 name sys.sched.running_list sys 0 one)
        (kill_levels-AllSame name sys₁.sched.mlq_ready_queue sys₁ count₁ others) in
    rw (sym (ap (λ r. r.1) (ok-injective run₂))) (record { at = both.at })

pub sys_killall-AllSame :
    (sys : System) (addr memrg : ℕ) {n : ℕ} {sys' : System}
    → sys_killall sys addr memrg ≡ ok (n, sys')
    → AllSame sys sys'
unfolding sys_killall
sys_killall-AllSame sys addr memrg run =
    let (proc, here, run₁) = >>=-eq-ok (process_at sys addr) _ run in
    let ((name, caller), spelled, run₂) =
      >>=-eq-ok (name_loop name_size 0 memrg 0 (caller_of sys proc)) _ run₁ in
    AllSame-trans (put_caller-AllSame sys addr proc proc caller here (SameCode-refl proc))
      (kill_named-AllSame (put_caller sys addr proc caller) name run₂)
