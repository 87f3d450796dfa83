-- ===== src/Config/Starting.antt =====
-- What `main` of src/os.c has made when it creates the threads.
use waguri.Base.{
  ℕ, zero, suc, ◌+◌, ◌^◌, ◌≤◌, ◌<◌, ◌≡◌, ◌≢◌, refl, ap, ◌∙◌, arith, true, false, Option, none, some,
  List, [], ◌∷◌, ◌++◌, length, lt→leb, le→leb, ok, fault, replicate,
}
use waguri.Memphy.{Memphy}
use waguri.Sched.{Pcb, Sched}
use waguri.Sched.Levels.{Hold}
use waguri.Machine.{System}
use waguri.Loader.{Stdio}
use waguri.Loader.RoundTrip.{Token, Scans}
use waguri.Memphy.Frames.{IsFresh}
use waguri.Os.{take_proc}
use waguri.Os.Boot.{Sizes, AllFresh, boot-AllFresh, boot-empty}
use waguri.Timer.{Timer, unused, fresh, attach_event, Attached, none_yet, one_more}
use waguri.World.{attached}
use waguri.Config.{input_dir, path_size, join, rounds, read_config, exits, begins, set_up, main}
use waguri.Config.Reading.{Decimals, Setting, AllShort, print_setting, config_of, read_config-print}

-- Devices are attached as long as the timer has not started.
grown :
    (t : Timer)
    → t.timer_started ≡ false
    → attach_event t ≡ some (record t { dev_list = fresh ∷ t.dev_list })
unfolding attach_event
grown t off =
    ap
      (λ b. elim b as (λ _. Option Timer) [
        | true ↦ none
        | false ↦ some (record t { dev_list = fresh ∷ t.dev_list })
      ])
      off

attached-Attached :
    (n : ℕ)
    → (t : Timer) × (attached n ≡ some t)
      × Attached t
      × (t.timer_started ≡ false)
      × (length t.dev_list ≡ n)
attached-Attached zero = (unused, refl, none_yet, refl, refl)
attached-Attached (suc n) =
    let (t, e, a, off, size) = attached-Attached n in
    let u : Timer = record t { dev_list = fresh ∷ t.dev_list } in
    let more : attach_event t ≡ some u = grown t off in
    (u, rw e more, one_more a more, off, ap suc size)

-- `main` with one argument of at most 93 bytes that names a configuration file, in which the names of processes have at
-- most 88 bytes and the sizes of memories and the number of processors are not negative:
-- it has a device of the timer for each processor and one for the loader, a scheduler of empty levels, in which a
-- processor that looks for a process gets none, and zeroed memories of the sizes of the configuration, with all their
-- frames free when they have room for one, and it creates the threads with these.
pub main-begins :
    (io : Stdio) (At : io.File → List Token → Type 0) (fopen : List ℕ → Option io.File)
    (f : io.File) (sched : Sched) (xss : List (List Pcb)) (blank : Memphy) (arg : List ℕ)
    (s : Setting)
    → Scans io At
    → Decimals io At
    → length arg < 94
    → fopen (input_dir ++ arg) ≡ some f
    → At f (print_setting s)
    → length s.jobs < 2 ^ 31
    → AllShort s.jobs
    → s.num_cpus < 2 ^ 31
    → s.memramsz < 2 ^ 31
    → Sizes (config_of s).memswpsz
    → Hold sched.mlq_ready_queue xss
    → (sys : System) × (t : Timer) × (main io fopen sched blank (arg ∷ [])
        ≡ ok (begins (config_of s) sys t))
      × IsFresh blank sys.mram s.memramsz 1
      × AllFresh blank sys.mswp (config_of s).memswpsz
      × (sys.procs ≡ [])
      × Hold sys.sched.mlq_ready_queue (replicate (length xss) [])
      × (take_proc sys ≡ ok (none, sys))
      × Attached t
      × (length t.dev_list ≡ s.num_cpus + 1)
unfolding main set_up join
main-begins io At fopen f sched xss blank arg s scans decimals room opened at few short cpus ram
      swaps h =
    let (sys, booted, mram, mswp, procs, idle) =
      boot-AllFresh sched xss blank s.memramsz (config_of s).memswpsz h ram swaps in
    let count : suc (rounds s.num_cpus) ≡ suc s.num_cpus = ground arith in
    let (t, made, a, off, size) = attached-Attached (suc s.num_cpus) in
    let made' : attached (suc (rounds s.num_cpus)) ≡ some t = ap attached count ∙ made in
    let config = read_config-print io At scans decimals s f few short at in
    (
      sys,
      t,
      rw
          (
            lt→leb path_size (length input_dir + length arg) (omega arith),
            opened,
            config,
            made',
            booted,
          )
          refl,
      mram,
      mswp,
      procs,
      boot-empty sched xss blank s.memramsz (config_of s).memswpsz h booted,
      idle,
      a,
      omega (arith, size),
    )

-- `main` without just one argument, or with one that names no file that can be opened, ends with code 1 before it
-- creates a thread; a name of more than 93 bytes is written past the end of an array of 100 bytes.
pub main-exits :
    (io : Stdio) (fopen : List ℕ → Option io.File) (sched : Sched) (blank : Memphy)
    (args : List (List ℕ))
    → (length args ≢ 1 → main io fopen sched blank args ≡ ok (exits 1))
      × ((arg : List ℕ)
          → args ≡ arg ∷ []
          → (length arg < 94
              → fopen (input_dir ++ arg) ≡ none
              → main io fopen sched blank args ≡ ok (exits 1))
            × (94 ≤ length arg → main io fopen sched blank args ≡ fault))
unfolding main join read_config
main-exits io fopen sched blank args = (
  many args,
  λ arg e. (
    (λ room missing.
        rw (e, lt→leb path_size (length input_dir + length arg) (omega arith), missing) refl),
    λ long. rw (e, le→leb path_size (length input_dir + length arg) (omega arith)) refl,
  ),
)
  where
    many : (l : List (List ℕ)) → length l ≢ 1 → main io fopen sched blank l ≡ ok (exits 1)
    many [] ne = refl
    many (a ∷ []) ne = absurd (ne refl)
    many (a ∷ b ∷ l) ne = refl
