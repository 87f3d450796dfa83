-- ===== src/World/Shrink.antt =====
-- What a call of `run` does to the levels of the scheduler and to the blocks: killall takes processes
-- off the levels and puts none there, and no block is freed.
use waguri.Base.{
  ℕ, ◌+◌, ◌-◌, ◌≤◌, ◌≡◌, refl, sym, ap, ◌∙◌, arith, Option, none, some, List, [], ◌∷◌, ◌++◌, length,
  get_elem?, snoc-append, length-append, ok, ◌>>=◌, >>=-eq-ok, ok-injective, defined,
}
use waguri.PageAccess.{free_pcb_memph}
use waguri.Queue.{Queue, shift_loop}
use waguri.Queue.Bounded.{Holds}
use waguri.Queue.Removal.{shift_loop-Holds}
use waguri.Sched.{Pcb}
use waguri.Sched.Levels.{Hold, no_level, level}
use waguri.Machine.{System, process_at, put_process, caller_of, put_caller}
use waguri.Kill.{
  find_match, terminate, name_loop, name_size, kill_loop, kill_levels, kill_named, sys_killall,
}
use waguri.Cpu.{run}
use waguri.Cpu.Code.{kill_loop-Keeps}
use waguri.World.Counts.{count, waiting}

terminate-sched :
    (sys : System) (p : Pcb) {sys' : System} → terminate sys p ≡ ok sys' → sys'.sched ≡ sys.sched
unfolding terminate put_caller put_process
terminate-sched sys p run =
    let (proc, here, run₁) = >>=-eq-ok (process_at sys p.addr) _ run in
    let ((code, caller), freed, run₂) = >>=-eq-ok (free_pcb_memph (caller_of sys proc)) _ run₁ in
    ap (λ r. r.sched) (sym (ok-injective run₂))

-- What the loop over a queue has left of it behind `pre`
abbrev Left : List Pcb → List Pcb → System → Queue Pcb → System → Type 0
Left pre xs sys q sys' =
    (ys : List Pcb) × Holds q (pre ++ ys)
    × ((a : ℕ) → count a ys ≤ count a xs)
    × (sys'.sched ≡ sys.sched)

kill_loop-Left :
    (name : List ℕ) (xs pre : List Pcb) (i : ℕ) (q : Queue Pcb) (sys : System) (n : ℕ)
    {q' : Queue Pcb} {sys' : System} {n' : ℕ}
    → i ≡ length pre
    → Holds q (pre ++ xs)
    → kill_loop (length xs) i name q sys n ≡ ok (q', sys', n')
    → Left pre xs sys q' sys'
unfolding kill_loop
kill_loop-Left name [] pre i q sys n at h run =
    let e = ok-injective run in
    ([], rw (ap (λ r. r.0) (sym e)) h, (λ a. omega arith), ap (λ r. r.1.sched) (sym e))
kill_loop-Left name (x ∷ xs) pre i q sys n {q'} {sys'} {n'} at h run =
    let (slot, here, run₁) = >>=-eq-ok (defined (get_elem? q.proc i)) _ run in
    let (found, match, run₂) = >>=-eq-ok (find_match sys name slot) _ run₁ in
    go found run₂
      (kill_loop-Left name xs (pre ++ x ∷ []) (i + 1) q sys n
        (omega (arith, at, length-append pre (x ∷ []))) (rw (snoc-append pre x xs) h))
      (λ r next held. kill_loop-Left name xs pre i r next (n + 1) at held)
  where
    go :
        (found : Option Pcb)
        → (elim found [
          | none ↦ kill_loop (length xs) (i + 1) name q sys n
          | some p ↦ do
            sys' ← terminate sys p
            shifted ← shift_loop (q.size - 1 - i) (i + 1) q.proc
            kill_loop (length xs) i name (record { proc = shifted; size = q.size - 1 }) sys' (n + 1)
        ])
          ≡ ok (q', sys', n')
        → (kill_loop (length xs) (i + 1) name q sys n ≡ ok (q', sys', n')
            → Left (pre ++ x ∷ []) xs sys q' sys')
        → ((r : Queue Pcb) (next : System)
            → Holds r (pre ++ xs)
            → kill_loop (length xs) i name r next (n + 1) ≡ ok (q', sys', n')
            → Left pre xs next q' sys')
        → Left pre (x ∷ xs) sys q' sys'
    go none run₂ skip more =
        let (ys, h', le, same) = skip run₂ in
        (x ∷ ys, rw (sym (snoc-append pre x ys)) h', (λ a. omega (arith, le a)), same)
    go (some p) run₂ skip more =
        let (next, ended, run₃) = >>=-eq-ok (terminate sys p) _ run₂ in
        let (shifted, moved, run₄) =
          >>=-eq-ok (shift_loop (q.size - 1 - i) (i + 1) q.proc) _ run₃ in
        let (shifted', moved', h') = shift_loop-Holds pre x xs h in
        let is : shifted' ≡ shifted = ok-injective (sym moved' ∙ rw (sym at) moved) in
        let (ys, h'', le, same) =
          more (record { proc = shifted; size = q.size - 1 }) next (rw (sym is) h') run₄ in
        (ys, h'', (λ a. omega (arith, le a)), same ∙ terminate-sched sys p ended)

-- The levels have lost processes, and got none.
pub record Fewer (xss : List (List Pcb)) (qs : List (Queue Pcb)) : Type 0 where
  pub levels : List (List Pcb)
  pub holds : Hold qs levels
  pub fewer : (a : ℕ) → waiting a levels ≤ waiting a xss

moved-Fewer :
    {xss : List (List Pcb)} {qs qs' : List (Queue Pcb)} → qs ≡ qs' → Fewer xss qs → Fewer xss qs'
moved-Fewer e f = record { levels = f.levels; holds = rw (sym e) f.holds; fewer = f.fewer }

pub same-Fewer :
    {xss : List (List Pcb)} {qs qs' : List (Queue Pcb)} → qs ≡ qs' → Hold qs xss → Fewer xss qs'
same-Fewer {xss} e h = record { levels = xss; holds = rw (sym e) h; fewer = λ a. omega arith }

kill_levels-Fewer :
    (name : List ℕ) {qs : List (Queue Pcb)} {xss : List (List Pcb)} (sys : System) (n : ℕ)
    {qs' : List (Queue Pcb)} {sys' : System} {n' : ℕ}
    → Hold qs xss
    → kill_levels name qs sys n ≡ ok (qs', sys', n')
    → Fewer xss qs'
unfolding kill_levels
kill_levels-Fewer name sys n no_level ran = same-Fewer (ap (λ r. r.0) (ok-injective ran)) no_level
kill_levels-Fewer name sys n (level {q} {qs} {xs} {xss} h hs) ran =
    let ((q₁, sys₁, n₁), one, run₁) = >>=-eq-ok (kill_loop q.size 0 name q sys n) _ ran in
    let ((qs₂, sys₂, n₂), others, run₂) = >>=-eq-ok (kill_levels name qs sys₁ n₁) _ run₁ in
    let counted : kill_loop (length xs) 0 name q sys n ≡ ok (q₁, sys₁, n₁) =
      ap (λ k. kill_loop k 0 name q sys n) (sym h.count) ∙ one in
    let (ys, h', le, same) = kill_loop-Left name xs [] 0 q sys n refl h counted in
    let rest = kill_levels-Fewer name sys₁ n₁ hs others in
    moved-Fewer (ap (λ r. r.0) (ok-injective run₂)) (record {
      levels = ys ∷ rest.levels;
      holds = level h' rest.holds;
      fewer = λ a. omega (arith, le a, rest.fewer a);
    })

kill_loop-sched :
    (left i : ℕ) (name : List ℕ) (q : Queue Pcb) (sys : System) (n : ℕ) {q' : Queue Pcb}
    {sys' : System} {n' : ℕ}
    → kill_loop left i name q sys n ≡ ok (q', sys', n')
    → sys'.sched ≡ sys.sched
kill_loop-sched =
    kill_loop-Keeps (λ sys sys'. sys'.sched ≡ sys.sched) (λ sys. refl) (λ r s t p q. q ∙ p)
      (λ sys p s. terminate-sched sys p)

kill_named-Fewer :
    (sys : System) (name : List ℕ) {xss : List (List Pcb)} {n : ℕ} {sys' : System}
    → Hold sys.sched.mlq_ready_queue xss
    → kill_named sys name ≡ ok (n, sys')
    → Fewer xss sys'.sched.mlq_ready_queue
unfolding kill_named
kill_named-Fewer sys name {xss} h ran =
    let ((q₁, sys₁, n₁), one, run₁) =
      >>=-eq-ok (kill_loop sys.sched.running_list.size 0 name sys.sched.running_list sys 0) _ ran in
    let ((qs₂, sys₂, n₂), others, run₂) =
      >>=-eq-ok (kill_levels name sys₁.sched.mlq_ready_queue sys₁ n₁) _ run₁ in
    let same =
      kill_loop-sched sys.sched.running_list.size 0 name sys.sched.running_list sys 0 one in
    let h' : Hold sys₁.sched.mlq_ready_queue xss = rw same h in
    moved-Fewer (ap (λ r. r.1.sched.mlq_ready_queue) (ok-injective run₂))
      (kill_levels-Fewer name sys₁ n₁ h' others)

pub sys_killall-Fewer :
    (sys : System) (addr memrg : ℕ) {xss : List (List Pcb)} {n : ℕ} {sys' : System}
    → Hold sys.sched.mlq_ready_queue xss
    → sys_killall sys addr memrg ≡ ok (n, sys')
    → Fewer xss sys'.sched.mlq_ready_queue
unfolding sys_killall put_caller put_process
sys_killall-Fewer sys addr memrg h ran =
    let (proc, here, run₁) = >>=-eq-ok (process_at sys addr) _ ran in
    let ((name, caller), spelled, run₂) =
      >>=-eq-ok (name_loop name_size 0 memrg 0 (caller_of sys proc)) _ run₁ in
    kill_named-Fewer (put_caller sys addr proc caller) name h run₂
