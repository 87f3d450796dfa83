-- ===== src/Os/Boot.antt =====
-- The system that `main` of src/os.c sets up.
use mathlib.Core.Path.{subst}
use waguri.Base.{
  length, replicate, >>=-eq-ok, ok-injective, ℕ, suc, ◌<◌, ◌^◌, ◌≡◌, refl, none, some, List, [],
  ◌∷◌, get_elem?, ok,
}
use waguri.Memphy.{Memphy}
use waguri.Memphy.Frames.{IsFresh, init_memphy-IsFresh}
use waguri.Sched.{Pcb, Sched, init_scheduler}
use waguri.Sched.Levels.{Hold}
use waguri.Sched.Policy.{init_scheduler-Idle}
use waguri.Machine.{System}
use waguri.Os.{take_proc, make_device, make_swaps, boot}

-- A zeroed random access device for each size
pub data AllFresh (blank : Memphy) : List Memphy → List ℕ → Type 0 where
  no_device : AllFresh blank [] []
  device :
      {mp : Memphy} {mps : List Memphy} {size : ℕ} {sizes : List ℕ}
      → IsFresh blank mp size 1
      → AllFresh blank mps sizes
      → AllFresh blank (mp ∷ mps) (size ∷ sizes)

-- No size is negative.
abbrev pub Sizes : List ℕ → Type 0
Sizes sizes = (i n : ℕ) → get_elem? sizes i ≡ some n → n < 2 ^ 31

make_device-IsFresh :
    (blank : Memphy) (size : ℕ)
    → size < 2 ^ 31
    → (mp : Memphy) × (make_device blank size ≡ ok mp) × IsFresh blank mp size 1
unfolding make_device
make_device-IsFresh blank size h =
    let (mp, run, new) = init_memphy-IsFresh blank size 1 h in (mp, rw run refl, new)

make_swaps-AllFresh :
    (blank : Memphy) (sizes : List ℕ)
    → Sizes sizes
    → (mps : List Memphy) × (make_swaps blank sizes ≡ ok mps) × AllFresh blank mps sizes
unfolding make_swaps
make_swaps-AllFresh blank [] h = ([], refl, no_device)
make_swaps-AllFresh blank (size ∷ sizes) h =
    let (mp, one, new) = make_device-IsFresh blank size (h 0 size refl) in
    let (mps, others, all) = make_swaps-AllFresh blank sizes (λ i. h (suc i)) in
    (mp ∷ mps, rw (one, others) refl, device new all)

-- With sizes that are not negative, `main` sets up zeroed random access devices of the sizes asked for, each with
-- all its frames free when it has room for one; there is no process yet, and a processor that looks for one gets none.
pub boot-AllFresh :
    (sched : Sched) (xss : List (List Pcb)) (blank : Memphy) (memramsz : ℕ) (memswpsz : List ℕ)
    → Hold sched.mlq_ready_queue xss
    → memramsz < 2 ^ 31
    → Sizes memswpsz
    → (sys : System) × (boot sched blank memramsz memswpsz ≡ ok sys)
      × IsFresh blank sys.mram memramsz 1
      × AllFresh blank sys.mswp memswpsz
      × (sys.procs ≡ [])
      × (take_proc sys ≡ ok (none, sys))
unfolding boot take_proc
boot-AllFresh sched xss blank memramsz memswpsz h small smalls =
    let (mram, ran, new) = make_device-IsFresh blank memramsz small in
    let (mswp, others, all) = make_swaps-AllFresh blank memswpsz smalls in
    let (held, idle, same) = init_scheduler-Idle sched xss h in
    (
      record { sched = init_scheduler sched; mram = mram; mswp = mswp; procs = [] },
      rw (ran, others) refl,
      new,
      all,
      refl,
      rw idle refl,
    )

-- Every level of the scheduler that `main` sets up is empty.
pub boot-empty :
    (sched : Sched) (xss : List (List Pcb)) (blank : Memphy) (memramsz : ℕ) (memswpsz : List ℕ)
    {sys : System}
    → Hold sched.mlq_ready_queue xss
    → boot sched blank memramsz memswpsz ≡ ok sys
    → Hold sys.sched.mlq_ready_queue (replicate (length xss) [])
unfolding boot
boot-empty sched xss blank memramsz memswpsz h booted =
    let (mram, made, rest) = >>=-eq-ok (make_device blank memramsz) _ booted in
    let (mswp, swaps, rest₁) = >>=-eq-ok (make_swaps blank memswpsz) _ rest in
    subst (λ sys. Hold sys.sched.mlq_ready_queue (replicate (length xss) [])) (ok-injective rest₁)
      (init_scheduler-Idle sched xss h).0
