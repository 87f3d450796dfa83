-- ===== src/Config/Reading.antt =====
-- What src/os.c reads of a configuration file.
use waguri.Base.{
  ℕ, ◌+◌, ◌^◌, ◌≤◌, ◌<◌, ◌≡◌, refl, sym, ap, ◌∙◌, arith, some, List, [], ◌∷◌, ◌++◌, map, length,
  le→leb, lt→leb, Run, ok, fault, ◌>>=◌,
}
use waguri.Loader.{Stdio, stored}
use waguri.Loader.RoundTrip.{Token, word, number, Scans}
use waguri.Config.{
  Line, Config, or_zero, proc_dir, path_size, join, rounds, scan_decimals, scan_swaps, proc_path,
  scan_line, scan_lines, read_config,
}

-- What the library's functions do at a number
pub record Decimals (io : Stdio) (At : io.File → List Token → Type 0) : Type 0 where
  pub int_law :
      (f : io.File) (n : ℕ) (ts : List Token)
      → At f (number n ∷ ts)
      → (f' : io.File) × (io.scan_int f ≡ (some n, f')) × At f' ts
  pub ulong_law :
      (f : io.File) (n : ℕ) (ts : List Token)
      → At f (number n ∷ ts)
      → (f' : io.File) × (io.scan_ulong f ≡ (some n, f')) × At f' ts

-- A process of a configuration, and the configuration
pub record Job : Type 0 where
  pub start_time : ℕ
  pub name : List ℕ
  pub prio : ℕ

pub record Setting : Type 0 where
  pub time_slot : ℕ
  pub num_cpus : ℕ
  pub memramsz : ℕ
  pub swap_0 : ℕ
  pub swap_1 : ℕ
  pub swap_2 : ℕ
  pub swap_3 : ℕ
  pub jobs : List Job

abbrev pub print_jobs : List Job → List Token → List Token
print_jobs [] ts = ts
print_jobs (j ∷ js) ts = number j.start_time ∷ word j.name ∷ number j.prio ∷ print_jobs js ts

abbrev pub print_setting : Setting → List Token
print_setting s =
    number s.time_slot
    ∷ number s.num_cpus
    ∷ number (length s.jobs)
    ∷ number s.memramsz
    ∷ number s.swap_0
    ∷ number s.swap_1
    ∷ number s.swap_2
    ∷ number s.swap_3
    ∷ print_jobs s.jobs []

abbrev pub line_of : Job → Line
line_of j = record { path = proc_dir ++ j.name; start_time = some j.start_time; prio = some j.prio }

abbrev pub config_of : Setting → Config
config_of s = record {
  time_slot = s.time_slot;
  num_cpus = s.num_cpus;
  num_processes = length s.jobs;
  memramsz = s.memramsz;
  memswpsz = s.swap_0 ∷ s.swap_1 ∷ s.swap_2 ∷ s.swap_3 ∷ [];
  lines = map line_of s.jobs;
}

-- The names leave room for the directory and the byte 0.
abbrev pub AllShort : List Job → Type 0
AllShort [] = Unit
AllShort (j ∷ js) = (length j.name < 89) × AllShort js

module _ (io : Stdio) where
  proc_path-short : (name : List ℕ) → length name < 89 → proc_path io name ≡ ok (proc_dir ++ name)
  unfolding proc_path join
  proc_path-short name h =
      rw
        (
          lt→leb path_size (length name) (omega arith),
          lt→leb path_size (length proc_dir + length name) (omega arith),
        )
        refl

  proc_path-long : (name : List ℕ) → 89 ≤ length name → proc_path io name ≡ fault
  unfolding proc_path join
  proc_path-long name h =
      rw (le→leb path_size (length proc_dir + length name) (omega arith)) (ground arith)

  module _ (At : io.File → List Token → Type 0) (scans : Scans io At)
      (decimals : Decimals io At) where
    abbrev numbers : List ℕ → List Token → List Token
    numbers [] ts = ts
    numbers (n ∷ ns) ts = number n ∷ numbers ns ts

    scan_decimals-numbers :
        (ns : List ℕ) (f : io.File) (ts : List Token)
        → At f (numbers ns ts)
        → (f' : io.File) × (scan_decimals io (length ns) f ≡ (ns, f')) × At f' ts
    unfolding scan_decimals
    scan_decimals-numbers [] f ts at = (io.skip_space f, refl, scans.space_law f ts at)
    scan_decimals-numbers (n ∷ ns) f ts at =
        let (f₁, one, at₁) = decimals.int_law f n (numbers ns ts) at in
        let (f₂, rest, at₂) = scan_decimals-numbers ns f₁ ts at₁ in
        (
          f₂,
          (λ i. stored io (one i).0 (one i).1 (scan_decimals io (length ns) (one i).1))
              ∙ (λ i. stored io (some n) f₁ (rest i)),
          at₂,
        )

    scan_swaps-numbers :
        (ns : List ℕ) (f : io.File) (ts : List Token)
        → At f (numbers ns ts)
        → (f' : io.File) × (scan_swaps io (length ns) f ≡ (ns, f')) × At f' ts
    unfolding scan_swaps
    scan_swaps-numbers [] f ts at = (f, refl, at)
    scan_swaps-numbers (n ∷ ns) f ts at =
        let (f₁, one, at₁) = decimals.int_law f n (numbers ns ts) at in
        let (f₂, rest, at₂) = scan_swaps-numbers ns f₁ ts at₁ in
        (
          f₂,
          (λ i. (
            or_zero (one i).0 ∷ (scan_swaps io (length ns) (one i).1).0,
            (scan_swaps io (length ns) (one i).1).1,
          ))
              ∙ (λ i. (n ∷ (rest i).0, (rest i).1)),
          at₂,
        )

    scan_line-print :
        (j : Job) (f : io.File) (ts : List Token)
        → length j.name < 89
        → At f (number j.start_time ∷ word j.name ∷ number j.prio ∷ ts)
        → (f' : io.File) × (scan_line io f ≡ ok (line_of j, f')) × At f' ts
    unfolding scan_line
    scan_line-print j f ts short at =
        let (f₁, one, at₁) =
          decimals.ulong_law f j.start_time (word j.name ∷ number j.prio ∷ ts) at in
        let (f₂, two, at₂) = scans.word_law f₁ j.name (number j.prio ∷ ts) at₁ in
        let (f₃, three, at₃) = decimals.ulong_law f₂ j.prio ts at₂ in
        (
          io.skip_space f₃,
          rw (one, two, three, proc_path-short j.name short) refl,
          scans.space_law f₃ ts at₃,
        )

    scan_lines-print :
        (js : List Job) (f : io.File) (ts : List Token)
        → AllShort js
        → At f (print_jobs js ts)
        → scan_lines io (length js) f ≡ ok (map line_of js)
    unfolding scan_lines
    scan_lines-print [] f ts short at = refl
    scan_lines-print (j ∷ js) f ts (short, shorts) at =
        let (f', one, at') = scan_line-print j f (print_jobs js ts) short at in
        rw (one, scan_lines-print js f' ts shorts at') refl

    -- The first name that is too long ends the reading.
    scan_lines-overrun :
        (js more : List Job) (j : Job) (f : io.File) (ts : List Token)
        → AllShort js
        → 89 ≤ length j.name
        → At f (print_jobs (js ++ j ∷ more) ts)
        → scan_lines io (length (js ++ j ∷ more)) f ≡ fault
    unfolding scan_lines scan_line
    scan_lines-overrun [] more j f ts short long at =
        let (f₁, one, at₁) =
          decimals.ulong_law f j.start_time (word j.name ∷ number j.prio ∷ print_jobs more ts) at in
        let (f₂, two, at₂) = scans.word_law f₁ j.name (number j.prio ∷ print_jobs more ts) at₁ in
        rw (one, two, proc_path-long j.name long) refl
    scan_lines-overrun (k ∷ js) more j f ts (short, shorts) long at =
        let (f', one, at') = scan_line-print k f (print_jobs (js ++ j ∷ more) ts) short at in
        rw (one, scan_lines-overrun js more j f' ts shorts long at') refl

    -- The numbers before the lines of the processes
    read_config-jobs :
        (s : Setting) (f : io.File) {lines : Run (List Line)}
        → length s.jobs < 2 ^ 31
        → At f (print_setting s)
        → ((f' : io.File) → At f' (print_jobs s.jobs []) → scan_lines io (length s.jobs) f' ≡ lines)
        → read_config io (some f) ≡ (do ls ← lines; ok (some (record (config_of s) { lines = ls })))
    unfolding read_config
    read_config-jobs s f small at scanned =
        let (f₁, one, at₁) =
          scan_decimals-numbers (s.time_slot ∷ s.num_cpus ∷ length s.jobs ∷ []) f _ at in
        let (f₂, two, at₂) = scan_decimals-numbers (s.memramsz ∷ []) f₁ _ at₁ in
        let (f₃, three, at₃) =
          scan_swaps-numbers (s.swap_0 ∷ s.swap_1 ∷ s.swap_2 ∷ s.swap_3 ∷ []) f₂ _ at₂ in
        let all : rounds (length s.jobs) ≡ length s.jobs = ground arith in
        rw (one, two, three, all, scanned (io.skip_space f₃) (scans.space_law f₃ _ at₃)) refl

    -- `read_config` of a file that holds a configuration, whose names of at most 88 bytes leave room for the
    -- directory: it gives every number of the file in its place, and for each process the path in "input/proc/"
    -- with its start time and its priority, in their order.
    pub read_config-print :
        (s : Setting) (f : io.File)
        → length s.jobs < 2 ^ 31
        → AllShort s.jobs
        → At f (print_setting s)
        → read_config io (some f) ≡ ok (some (config_of s))
    read_config-print s f small short at =
        read_config-jobs s f small at (λ f' at'. scan_lines-print s.jobs f' [] short at')

    -- The first name of more than 88 bytes is written past the end of an array of 100 bytes.
    pub read_config-overrun :
        (s : Setting) (f : io.File) (js more : List Job) (j : Job)
        → length s.jobs < 2 ^ 31
        → s.jobs ≡ js ++ j ∷ more
        → AllShort js
        → 89 ≤ length j.name
        → At f (print_setting s)
        → read_config io (some f) ≡ fault
    read_config-overrun s f js more j small e short long at =
        read_config-jobs s f small at (λ f' at'.
          ap (λ l. scan_lines io (length l) f') e
          ∙ scan_lines-overrun js more j f' [] short long (rw (sym e) at'))
