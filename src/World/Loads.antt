-- ===== src/World/Loads.antt =====
-- What a turn of the loader's thread of src/os.c does to who holds which process.
use waguri.Base.{
  ℕ, ◌+◌, ◌<◌, ◌≡◌, inl, inr, ◌∙◌, arith, eq_or_ne, some, List, [], ◌∷◌, ◌++◌, ltb, if-cases,
  length, get_elem?-append_left, get_elem?-middle, lt_of_get_elem?, lt_or_ge, ok, >>=-eq-ok,
  ok-injective,
}
use mathlib.Core.Path.{subst}
use waguri.Mm.{init_mm}
use waguri.Sched.{Pcb, Sched, add_proc}
use waguri.Machine.{Process, System}
use waguri.Os.{Turn, Entry, ld_turn}
use waguri.World.Counts.{waiting, once_other, once_bound}
use waguri.World.Levels.{add_proc-Hold}
use waguri.World.Turns.{Fine}

entered-Fine :
    {sys : System} {held : ℕ → ℕ} (prio : ℕ) (new : Process) {s : Sched}
    → Fine sys held
    → add_proc sys.sched (record { addr = length sys.procs; prio = prio }) ≡ ok s
    → Fine (record sys { sched = s; procs = sys.procs ++ some new ∷ [] }) held
entered-Fine {sys} {held} prio new {s} f ran =
    let p : Pcb = record { addr = length sys.procs; prio = prio } in
    let (xss, h, le) = add_proc-Hold sys.sched p f.holds ran in
    let known : (a : ℕ) → 0 < waiting a f.levels + held a → a < length sys.procs =
      λ a lt. lt_of_get_elem? sys.procs a (f.blocks a lt).1 in
    record {
      levels = xss;
      holds = h;
      unique = λ a. elim (eq_or_ne a p.addr) [
        | inl e ↦ elim (lt_or_ge 0 (waiting a f.levels + held a)) [
          | inl lt ↦ absurd (omega (arith, known a lt, e))
          | inr ge ↦ omega (arith, le a, once_bound a p)
        ]
        | inr ne ↦ omega (arith, le a, f.unique a, once_other a p ne)
      ];
      blocks = λ a lt. elim (eq_or_ne a p.addr) [
        | inl e ↦ (new, rw e (get_elem?-middle sys.procs (some new) []))
        | inr ne ↦
            let was : 0 < waiting a f.levels + held a = omega (arith, le a, once_other a p ne) in
            let (proc, at) = f.blocks a was in
            (proc, get_elem?-append_left sys.procs (some new ∷ []) a (known a was) ∙ at)
      ];
    }

-- A turn of the loader: the process that enters has a block of its own.
pub ld_turn-Fine :
    (now : ℕ) (es : List Entry) {sys : System} {held : ℕ → ℕ} {turn : Turn} {es' : List Entry}
    {sys' : System}
    → Fine sys held
    → ld_turn now es sys ≡ ok (turn, es', sys')
    → Fine sys' held
unfolding ld_turn
ld_turn-Fine now [] {held = held} f ran = subst (λ r. Fine r.2 held) (ok-injective ran) f
ld_turn-Fine now (e ∷ es) {sys} {held} f ran = elim (if-cases (ltb now e.start_time) _ _ ran) [
  | inl (early, ran₁) ↦ subst (λ r. Fine r.2 held) (ok-injective ran₁) f
  | inr (due, ran₁) ↦
      let (s, added, rest) =
        >>=-eq-ok (add_proc sys.sched (record { addr = length sys.procs; prio = e.prio })) _ ran₁ in
      subst (λ r. Fine r.2 held) (ok-injective rest)
        (entered-Fine e.prio (record e.proc { mm = init_mm e.proc.mm e.words; active_mswp = 0 }) f
          added)
]
