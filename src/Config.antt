-- ===== src/Config.antt =====
-- The configuration that src/os.c reads, and what its `main` does before it creates the threads. The
-- C library's functions on a file are the parameter of Loader; `fopen` is an argument. What these print
-- is left out.
pub mod Reading
pub mod Starting
use waguri.Base.{
  ℕ, zero, suc, ◌+◌, Option, none, some, List, [], ◌∷◌, ◌++◌, leb, if◌then◌else◌, length, get_elem?,
  Run, ok, fault, ◌>>=◌, defined,
}
use waguri.Cint.{slt}
use waguri.Memphy.{Memphy}
use waguri.Mm.{max_mmswp}
use waguri.Sched.{Sched}
use waguri.Machine.{System}
use waguri.Loader.{Stdio, stored}
use waguri.Os.{boot}
use waguri.Timer.{Timer}
use waguri.World.{attached}

-- The elements of `ld_processes`; a number that was not read is `none`.
pub record Line : Type 0 where
  pub path : List ℕ
  pub start_time : Option ℕ
  pub prio : Option ℕ

-- The static variables that `read_config` writes
pub record Config : Type 0 where
  pub time_slot : ℕ
  pub num_cpus : ℕ
  pub num_processes : ℕ
  pub memramsz : ℕ
  pub memswpsz : List ℕ
  pub lines : List Line

-- A static variable that was not read is 0.
abbrev pub or_zero : Option ℕ → ℕ
or_zero none = 0
or_zero (some n) = n

-- "input/" and "input/proc/"
abbrev pub input_dir : List ℕ
input_dir = 105 ∷ 110 ∷ 112 ∷ 117 ∷ 116 ∷ 47 ∷ []

abbrev pub proc_dir : List ℕ
proc_dir = 105 ∷ 110 ∷ 112 ∷ 117 ∷ 116 ∷ 47 ∷ 112 ∷ 114 ∷ 111 ∷ 99 ∷ 47 ∷ []

abbrev pub path_size : ℕ
path_size = 100

-- `strcat` of two texts into an array of 100 bytes, which has the byte 0 at the end
unfoldable pub join : List ℕ → List ℕ → Run (List ℕ)
join dir name = if leb path_size (length dir + length name) then fault else ok (dir ++ name)

-- A loop up to an `int`
abbrev pub rounds : ℕ → ℕ
rounds n = if slt 0 n then n else 0

-- How `main` goes on: it ends with a code, or creates the threads with these.
pub data Begin : Type 0 where
  exits : (code : ℕ) → Begin
  begins : Config → System → Timer → Begin

-- `main` with a configuration, up to the threads
unfoldable pub set_up : Sched → Memphy → Config → Run Begin
set_up sched blank config = do
  t ← defined (attached (suc (rounds config.num_cpus)))
  sys ← boot sched blank config.memramsz config.memswpsz
  ok (begins config sys t)

-- A missing configuration ends the program with code 1.
abbrev pub begin_with : Sched → Memphy → Option Config → Run Begin
begin_with sched blank none = ok (exits 1)
begin_with sched blank (some config) = set_up sched blank config

module _ (io : Stdio) where
  -- `fscanf` with so many `%d` and white space at the end: the first that fails ends it.
  unfoldable pub scan_decimals : ℕ → io.File → List ℕ × io.File
  scan_decimals zero file = ([], io.skip_space file)
  scan_decimals (suc k) file =
      let (n, file₁) = io.scan_int file in stored io n file₁ (scan_decimals k file₁)

  -- The loop over `memswpsz`, each of which has its own `fscanf`
  unfoldable pub scan_swaps : ℕ → io.File → List ℕ × io.File
  scan_swaps zero file = ([], file)
  scan_swaps (suc k) file =
      let (n, file₁) = io.scan_int file in
      let (ns, file₂) = scan_swaps k file₁ in (or_zero n ∷ ns, file₂)

  -- `proc` after `fscanf`, in an array of 100 bytes that holds nothing before, and the path
  unfoldable pub proc_path : List ℕ → Run (List ℕ)
  proc_path word = if leb path_size (length word) then fault else join proc_dir word

  -- The third conversion of a line, and the white space behind it
  abbrev pub after_prio : Option ℕ → io.File → io.File
  after_prio none file = file
  after_prio (some n) file = io.skip_space file

  -- A round of the loop over the processes
  unfoldable pub scan_line : io.File → Run (Line × io.File)
  scan_line file = do
    let (start_time, file₁) = io.scan_ulong file
    start ← defined start_time
    let (word, file₂) = io.scan_word file₁
    proc ← defined word
    path ← proc_path proc
    let (prio, file₃) = io.scan_ulong file₂
    ok (record { path = path; start_time = some start; prio = prio }, after_prio prio file₃)

  unfoldable pub scan_lines : ℕ → io.File → Run (List Line)
  scan_lines zero file = ok []
  scan_lines (suc left) file = do
    (line, file₁) ← scan_line file
    lines ← scan_lines left file₁
    ok (line ∷ lines)

  -- `read_config` of the file that `fopen` gives; without one it calls `exit`, for which `none` stands.
  unfoldable pub read_config : Option io.File → Run (Option Config)
  read_config none = ok none
  read_config (some file) = do
    let (first, file₁) = scan_decimals 3 file
    let (ram, file₂) = scan_decimals 1 file₁
    let (swaps, file₃) = scan_swaps max_mmswp file₂
    let num_processes = or_zero (get_elem? first 2)
    lines ← scan_lines (rounds num_processes) (io.skip_space file₃)
    ok (
        some (record {
          time_slot = or_zero (get_elem? first 0);
          num_cpus = or_zero (get_elem? first 1);
          num_processes = num_processes;
          memramsz = or_zero (get_elem? ram 0);
          memswpsz = swaps;
          lines = lines;
        }))

  -- `main` with the arguments behind the name of the program
  unfoldable pub main : (List ℕ → Option io.File) → Sched → Memphy → List (List ℕ) → Run Begin
  main fopen sched blank [] = ok (exits 1)
  main fopen sched blank (arg ∷ []) = do
    path ← join input_dir arg
    config ← read_config (fopen path)
    begin_with sched blank config
  main fopen sched blank (arg ∷ more ∷ args) = ok (exits 1)
