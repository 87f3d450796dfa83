-- ===== src/Sched/Levels.antt =====
-- The multilevel queue of src/sched.c as a list of first-in first-out lists.
use waguri.Base.{
  ℕ, zero, suc, ◌<◌, ◌≡◌, refl, arith, true, false, none, some, List, [], ◌∷◌, get_elem?, set, ok,
}
use waguri.Queue.{Queue}
use waguri.Queue.Bounded.{Holds, empty-Holds, dequeue-Holds}
use waguri.Sched.{Pcb, some_waiting, mlq_loop}

-- The levels hold the lists, one each.
pub data Hold : List (Queue Pcb) → List (List Pcb) → Type 0 where
  no_level : Hold [] []
  level :
      {q : Queue Pcb} {qs : List (Queue Pcb)} {xs : List Pcb} {xss : List (List Pcb)}
      → Holds q xs
      → Hold qs xss
      → Hold (q ∷ qs) (xs ∷ xss)

-- Level `i` holds `p` before `ps`, and the levels before it are empty.
pub record First (xss : List (List Pcb)) (i : ℕ) (p : Pcb) (ps : List Pcb) : Type 0 where
  pub here : get_elem? xss i ≡ some (p ∷ ps)
  pub above : (j : ℕ) → j < i → get_elem? xss j ≡ some []

-- No level holds a process.
abbrev pub Idle : List (List Pcb) → Type 0
Idle xss = (j : ℕ) (xs : List Pcb) → get_elem? xss j ≡ some xs → xs ≡ []

First-below :
    {xss : List (List Pcb)} {i : ℕ} {p : Pcb} {ps : List Pcb} {xs : List Pcb}
    → First (xs ∷ xss) (suc i) p ps
    → First xss i p ps
First-below f = record { here = f.here; above = λ j l. f.above (suc j) (omega arith) }

pub mlq_loop-First :
    {qs : List (Queue Pcb)} {xss : List (List Pcb)} {p : Pcb} {ps : List Pcb} (i : ℕ)
    → Hold qs xss
    → First xss i p ps
    → (qs' : List (Queue Pcb)) × (mlq_loop qs ≡ ok (some p, qs')) × Hold qs' (set xss i ps)
unfolding mlq_loop
mlq_loop-First i no_level f = ground (arith, f.here)
mlq_loop-First zero (level {q} {qs} {xs = []} {xss} h hs) f = ground (arith, f.here)
mlq_loop-First (suc i) (level {q} {qs} {xs = []} {xss} h hs) f =
    let (qs', run, hs') = mlq_loop-First i hs (First-below f) in
    (q ∷ qs', rw (empty-Holds h, run) refl, level h hs')
mlq_loop-First {p} {ps} zero (level {q} {qs} {xs = x ∷ xs} {xss} h hs) f =
    let (q', run, h') = dequeue-Holds h in
    (
      q' ∷ qs,
      rw (empty-Holds h, run) (ground (arith, f.here)),
      level (ground (arith, f.here, h')) hs,
    )
mlq_loop-First (suc i) (level {q} {qs} {xs = x ∷ xs} {xss} h hs) f =
    ground (arith, f.above 0 (omega arith))

pub mlq_loop-Idle :
    {qs : List (Queue Pcb)} {xss : List (List Pcb)}
    → Hold qs xss
    → Idle xss
    → mlq_loop qs ≡ ok (none, qs)
unfolding mlq_loop
mlq_loop-Idle no_level f = refl
mlq_loop-Idle (level {q} {qs} {xs = []} {xss} h hs) f =
    rw (empty-Holds h, mlq_loop-Idle hs (λ j. f (suc j))) refl
mlq_loop-Idle (level {q} {qs} {xs = x ∷ xs} {xss} h hs) f = ground (arith, f 0 (x ∷ xs) refl)

pub some_waiting-First :
    {qs : List (Queue Pcb)} {xss : List (List Pcb)} {p : Pcb} {ps : List Pcb} (i : ℕ)
    → Hold qs xss
    → First xss i p ps
    → some_waiting qs ≡ true
unfolding some_waiting
some_waiting-First i no_level f = ground (arith, f.here)
some_waiting-First zero (level {q} {qs} {xs = []} {xss} h hs) f = ground (arith, f.here)
some_waiting-First (suc i) (level {q} {qs} {xs = []} {xss} h hs) f =
    rw (empty-Holds h) (some_waiting-First i hs (First-below f))
some_waiting-First i (level {q} {qs} {xs = x ∷ xs} {xss} h hs) f = rw (empty-Holds h) refl

pub some_waiting-Idle :
    {qs : List (Queue Pcb)} {xss : List (List Pcb)}
    → Hold qs xss
    → Idle xss
    → some_waiting qs ≡ false
unfolding some_waiting
some_waiting-Idle no_level f = refl
some_waiting-Idle (level {q} {qs} {xs = []} {xss} h hs) f =
    rw (empty-Holds h) (some_waiting-Idle hs (λ j. f (suc j)))
some_waiting-Idle (level {q} {qs} {xs = x ∷ xs} {xss} h hs) f = ground (arith, f 0 (x ∷ xs) refl)

-- Level `i` holds a queue, and another one may be put in its place.
pub Hold-at :
    {qs : List (Queue Pcb)} {xss : List (List Pcb)} {xs : List Pcb} (i : ℕ)
    → Hold qs xss
    → get_elem? xss i ≡ some xs
    → (q : Queue Pcb) × (get_elem? qs i ≡ some q)
      × Holds q xs
      × ((q' : Queue Pcb) (ys : List Pcb) → Holds q' ys → Hold (set qs i q') (set xss i ys))
Hold-at i no_level e = ground (arith, e)
Hold-at zero (level {q} {qs} {xs} {xss} h hs) e =
    (q, refl, ground (arith, e, h), λ q' ys h'. level h' hs)
Hold-at (suc i) (level {q} {qs} {xs} {xss} h hs) e =
    let (q₁, e₁, h₁, replace) = Hold-at i hs e in
    (q₁, e₁, h₁, λ q' ys h'. level h (replace q' ys h'))
