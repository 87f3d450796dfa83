-- ===== src/World/Calculating.antt =====
-- Turns of the threads of src/os.c in a simulation whose processes only calculate: none meets an
-- undefined step.
use waguri.Base.{
  ℕ, ◌+◌, ◌-◌, ◌^◌, ◌<◌, ◌≡◌, inl, inr, refl, sym, ap, ◌∙◌, arith, Bool, true, false, Option, none,
  some, ◌==◌, if◌then◌else◌, Bool-cases, lt_or_ge, le→leb, get_elem?, get_elem?-set_cases, Run, ok,
  ◌>>=◌,
}
use waguri.Cint.{sadd, minus, sadd-minus_one}
use waguri.Sched.{Pcb, put_proc}
use waguri.Machine.{Process, System, process_at, put_process}
use waguri.Cpu.{stepped, run}
use waguri.Os.{
  Turn, slept, stopped, Cpu, take_proc, without_block, recheck, first_load, turn_body, cpu_turn,
}
use waguri.Os.Slice.{run-AtCalc}
use waguri.World.Counts.{once, on_cpu, once_self}
use waguri.World.Turns.{Fine, Fine-held, take_proc-Fine, put_back-Fine, without_block-Fine}
use waguri.World.Calm.{RankedNext, Calm, take_proc-Calm, put_proc-Calm}

-- Steps of a run, one after the other
>>=-step {ℓ κ} :
    {A : Type ℓ} {B : Type κ} (m : Run A) (f : A → Run B) {v : A} {r : Run B}
    → m ≡ ok v
    → f v ≡ r
    → (m >>= f) ≡ r
>>=-step m f e h = ap (λ x. x >>= f) e ∙ h

run-Calm :
    (n : ℕ) (sys : System) (addr : ℕ) (proc : Process)
    → Calm n sys
    → process_at sys addr ≡ ok proc
    → (code : ℕ) × (sys' : System) × (run sys addr ≡ ok (code, sys')) × Calm n sys'
unfolding run process_at put_process
run-Calm n sys addr proc c here =
    let block : get_elem? sys.procs addr ≡ some (some proc) = ground (arith, here) in
    elim (lt_or_ge proc.pc proc.code_size) [
      | inl lt ↦
          let (ins, fetched, calc) = (c.codes addr proc block).at proc.pc lt in
          (
            0,
            put_process sys addr (stepped proc),
            run-AtCalc sys addr proc here
                (record { left = lt; ins = ins; fetched = fetched; calc = calc }),
            record {
              levels = c.levels;
              holds = c.holds;
              ranked = c.ranked;
              size = c.size;
              codes = λ a p at.
                  elim (get_elem?-set_cases sys.procs addr a (some (stepped proc)) at) [
                    | inl (e, is) ↦
                        let same : stepped proc ≡ p = ground (arith, is) in
                        rw (sym same) (record { at = (c.codes addr proc block).at })
                    | inr (ne, was) ↦ c.codes a p was
                  ];
            },
          )
      | inr ge ↦ (1, sys, rw (block, le→leb proc.code_size proc.pc ge) refl, c)
    ]

without_block-Calm :
    (n : ℕ) {sys : System} (addr : ℕ) → Calm n sys → Calm n (without_block sys addr)
without_block-Calm n {sys} addr c = record {
  levels = c.levels;
  holds = c.holds;
  ranked = c.ranked;
  size = c.size;
  codes = λ a q at. elim (get_elem?-set_cases sys.procs addr a none at) [
    | inl (e, is) ↦ ground (arith, is)
    | inr (ne, was) ↦ c.codes a q was
  ];
}

-- A processor whose process has a level, with a slice that is not over-full
pub record Ready (n : ℕ) (cpu : Cpu) : Type 0 where
  pub ranked : RankedNext n cpu.proc
  pub bound : cpu.time_left < 2 ^ 31

-- A turn that ends, and what then holds
abbrev pub Ends : ℕ → Run (Turn × System × Cpu) → Type 0
Ends n r =
    (turn : Turn) × (sys' : System) × (cpu' : Cpu) × (r ≡ ok (turn, sys', cpu'))
    × Calm n sys'
    × Ready n cpu'

Ends-step {ℓ} :
    {A : Type ℓ} (n : ℕ) (m : Run A) (f : A → Run (Turn × System × Cpu)) {v : A}
    → m ≡ ok v
    → Ends n (f v)
    → Ends n (m >>= f)
Ends-step n m f e (turn, sys, cpu, ran, c, ready) =
    (turn, sys, cpu, ap (λ x. x >>= f) e ∙ ran, c, ready)

Ends-true :
    (n : ℕ) (b : Bool) (x y : Run (Turn × System × Cpu))
    → b ≡ true
    → Ends n x
    → Ends n (if b then x else y)
Ends-true n b x y e h = rw e h

Ends-false :
    (n : ℕ) (b : Bool) (x y : Run (Turn × System × Cpu))
    → b ≡ false
    → Ends n y
    → Ends n (if b then x else y)
Ends-false n b x y e h = rw e h

module _ (n time_slot done : ℕ) (others : ℕ → ℕ) (positive : 0 < time_slot)
    (small : time_slot < 2 ^ 31) where
  recheck-Ends :
      (sys : System) (next : Option Pcb) (left : ℕ)
      → Fine sys (λ a. on_cpu a next + others a)
      → Calm n sys
      → RankedNext n next
      → left < 2 ^ 31
      → Ends n (recheck time_slot done sys next left)
  unfolding recheck process_at
  recheck-Ends sys none left f c r lt =
      let ready : Ready n (record { proc = none; time_left = left }) = record {
        ranked = tt;
        bound = lt;
      } in
      elim (Bool-cases (done == 0)) [
        | inl e ↦ (slept, sys, record { proc = none; time_left = left }, rw e refl, c, ready)
        | inr e ↦ (stopped, sys, record { proc = none; time_left = left }, rw e refl, c, ready)
      ]
  recheck-Ends sys (some p) left f c r lt =
      let one : once p.addr p ≡ 1 = once_self p in
      let (proc, block) = f.blocks p.addr (omega (arith, one)) in
      let here : process_at sys p.addr ≡ ok proc = rw block refl in
      let (code, sys', ran, c') = run-Calm n sys p.addr proc c here in
      let slice = if left == 0 then time_slot else left in
      let pos : 0 < slice = ground arith in
      let bound : slice < 2 ^ 31 = ground arith in
      (
        slept,
        sys',
        record { proc = some p; time_left = slice - 1 },
        >>=-step (run sys p.addr) _ ran
            (>>=-step (sadd slice (minus 1)) _ (sadd-minus_one slice pos bound) refl),
        c',
        record { ranked = r; bound = omega arith },
      )

  turn_body-Ends :
      (sys : System) (proc : Option Pcb) (left : ℕ)
      → Fine sys (λ a. on_cpu a proc + others a)
      → Calm n sys
      → RankedNext n proc
      → left < 2 ^ 31
      → Ends n (turn_body time_slot done sys proc left)
  unfolding turn_body first_load process_at
  turn_body-Ends sys none left f c r lt =
      let (next, sys₁, took, c₁, r₁) = take_proc-Calm n c in
      Ends-step n (take_proc sys) _ took
        (first next sys₁ (take_proc-Fine (Fine-held f (λ a. omega arith)) took) c₁ r₁)
    where
      first :
          (next : Option Pcb) (s : System)
          → Fine s (λ a. on_cpu a next + others a)
          → Calm n s
          → RankedNext n next
          → Ends n (first_load time_slot done s next left)
      first none s f₁ c₁ r₁ =
          let idle : Cpu = record { proc = none; time_left = left } in
          (slept, s, idle, refl, c₁, record { ranked = tt; bound = lt })
      first (some p) s f₁ c₁ r₁ = recheck-Ends s (some p) left f₁ c₁ r₁ lt
  turn_body-Ends sys (some p) left f c r lt =
      let one : once p.addr p ≡ 1 = once_self p in
      let (proc, block) = f.blocks p.addr (omega (arith, one)) in
      let here : process_at sys p.addr ≡ ok proc = rw block refl in
      Ends-step n (process_at sys p.addr) _ here (elim (Bool-cases (proc.pc == proc.code_size)) [
        | inl e ↦
            let (next, sys₁, took, c₁, r₁) = take_proc-Calm n (without_block-Calm n p.addr c) in
            Ends-true n _ _ _ e (
              Ends-step n (take_proc (without_block sys p.addr)) _ took (
                recheck-Ends sys₁ next 0 (take_proc-Fine (without_block-Fine p f) took) c₁ r₁
                  (omega arith)))
        | inr e ↦ Ends-false n _ _ _ e (elim (Bool-cases (left == 0)) [
          | inl e₁ ↦
              let (s, put, c₁) = put_proc-Calm n p c r in
              let (next, sys₁, took, c₂, r₂) = take_proc-Calm n c₁ in
              Ends-true n _ _ _ e₁ (
                Ends-step n (put_proc sys.sched p) _ put (
                  Ends-step n (take_proc (record sys { sched = s })) _ took (
                    recheck-Ends sys₁ next left (take_proc-Fine (put_back-Fine p f put) took) c₂ r₂
                      lt)))
          | inr e₁ ↦ Ends-false n _ _ _ e₁ (recheck-Ends sys (some p) left f c r lt)
        ])
      ])

  pub cpu_turn-Ends :
      (sys : System) (cpu : Cpu)
      → Fine sys (λ a. on_cpu a cpu.proc + others a)
      → Calm n sys
      → Ready n cpu
      → Ends n (cpu_turn time_slot done sys cpu)
  unfolding cpu_turn
  cpu_turn-Ends sys cpu f c ready =
      turn_body-Ends sys cpu.proc cpu.time_left f c ready.ranked ready.bound
