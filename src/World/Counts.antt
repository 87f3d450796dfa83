-- ===== src/World/Counts.antt =====
-- How often an address stands in a queue, in the levels of the scheduler, or on a processor.
use waguri.Base.{
  ℕ, zero, suc, ◌+◌, ◌≤◌, ◌≡◌, ◌≢◌, refl, ap, arith, Option, none, some, List, [], ◌∷◌, ◌++◌, ◌==◌,
  ==_refl, ltb, if◌then◌else◌, Bool-cases, inl, inr, length, get_elem?, set,
}
use waguri.Queue.{max_queue_size}
use waguri.Queue.Bounded.{push}
use waguri.Sched.{Pcb}
use waguri.Os.{Cpu}

abbrev pub once : ℕ → Pcb → ℕ
once a p = if p.addr == a then 1 else 0

abbrev pub on_cpu : ℕ → Option Pcb → ℕ
on_cpu a none = 0
on_cpu a (some p) = once a p

abbrev pub count : ℕ → List Pcb → ℕ
count a [] = 0
count a (p ∷ ps) = once a p + count a ps

abbrev pub waiting : ℕ → List (List Pcb) → ℕ
waiting a [] = 0
waiting a (xs ∷ xss) = count a xs + waiting a xss

abbrev pub running : ℕ → List Cpu → ℕ
running a [] = 0
running a (c ∷ cs) = on_cpu a c.proc + running a cs

pub once_self : (p : Pcb) → once p.addr p ≡ 1
once_self p = rw (==_refl p.addr) refl

pub once_other : (a : ℕ) (p : Pcb) → a ≢ p.addr → once a p ≡ 0
once_other a p ne = ground arith

pub once_bound : (a : ℕ) (p : Pcb) → once a p ≤ 1
once_bound a p = ground arith

pub count-append : (a : ℕ) (xs ys : List Pcb) → count a (xs ++ ys) ≡ count a xs + count a ys
count-append a [] ys = omega arith
count-append a (x ∷ xs) ys = omega (arith, count-append a xs ys)

pub count-push : (a : ℕ) (xs : List Pcb) (p : Pcb) → count a (push xs p) ≤ count a xs + once a p
unfolding push
count-push a xs p = elim (Bool-cases (ltb (length xs) max_queue_size)) [
  | inl e ↦ rw e (omega (arith, count-append a xs (p ∷ [])))
  | inr e ↦ rw e (omega arith)
]

-- A processor gets other variables.
pub running-set :
    (a : ℕ) (cs : List Cpu) (i : ℕ) (new : Cpu) {old : Cpu}
    → get_elem? cs i ≡ some old
    → running a (set cs i new) + on_cpu a old.proc ≡ running a cs + on_cpu a new.proc
running-set a [] i new h = ground (arith, h)
running-set a (c ∷ cs) zero new {old} h =
    let same : c ≡ old = ground (arith, h) in rw same (omega arith)
running-set a (c ∷ cs) (suc i) new h = omega (arith, running-set a cs i new h)

pub on_cpu-running :
    (a : ℕ) (cs : List Cpu) (i : ℕ) {c : Cpu}
    → get_elem? cs i ≡ some c
    → on_cpu a c.proc ≤ running a cs
on_cpu-running a [] i h = ground (arith, h)
on_cpu-running a (e ∷ cs) zero {c} h = let same : e ≡ c = ground (arith, h) in rw same (omega arith)
on_cpu-running a (e ∷ cs) (suc i) h = omega (arith, on_cpu-running a cs i h)

-- Two processors
pub running-two :
    (a : ℕ) (cs : List Cpu) (i j : ℕ) {c d : Cpu}
    → i ≢ j
    → get_elem? cs i ≡ some c
    → get_elem? cs j ≡ some d
    → on_cpu a c.proc + on_cpu a d.proc ≤ running a cs
running-two a [] i j ne h g = ground (arith, h)
running-two a (e ∷ cs) zero zero ne h g = absurd (ne refl)
running-two a (e ∷ cs) zero (suc j) {c} ne h g =
    let same : e ≡ c = ground (arith, h) in rw same (omega (arith, on_cpu-running a cs j g))
running-two a (e ∷ cs) (suc i) zero {d = d} ne h g =
    let same : e ≡ d = ground (arith, g) in rw same (omega (arith, on_cpu-running a cs i h))
running-two a (e ∷ cs) (suc i) (suc j) ne h g =
    omega (arith, running-two a cs i j (λ q. ne (ap suc q)) h g)
