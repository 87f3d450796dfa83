-- ===== src/Tests/Loading.antt =====
-- Examples for the loader, the configuration and the older memory.
use waguri.Base.{
  ℕ, zero, suc, ◌+◌, ◌≡◌, ◌≢◌, ◌≤◌, ◌<◌, refl, arith, Option, none, some, List, [], ◌∷◌, ◌++◌, map,
  take, length, replicate, ok, fault, null,
}
use waguri.Machine.{System}
use waguri.Loader.{Stdio, load}
use waguri.Loader.RoundTrip.{
  Token, word, number, line, Scans, Command, calc, alloc, syscall, inst_of, print_program,
  load-print,
}
use waguri.Sched.{Sched}
use waguri.Sched.Levels.{Hold, no_level, level}
use waguri.Memphy.Frames.{IsFresh}
use waguri.Os.{take_proc}
use waguri.Os.Boot.{Sizes, AllFresh}
use waguri.Timer.{Timer, Attached}
use waguri.Config.{input_dir, read_config, exits, begins, main}
use waguri.Config.Reading.{Decimals, Setting, AllShort, print_setting, config_of, read_config-print}
use waguri.Config.Starting.{main-begins, main-exits}
use waguri.Tests.Data.{ram}
use waguri.Tests.Scheduling.{none_waiting, none_waiting-Holds}
use waguri.Tests.Killing.{worker}

-- A file as the tokens that it holds
abbrev next_uint : List Token → Option ℕ × List Token
next_uint (number n ∷ ts) = (some n, ts)
next_uint ts = (none, ts)

abbrev next_word : List Token → Option (List ℕ) × List Token
next_word (word w ∷ ts) = (some w, ts)
next_word ts = (none, ts)

abbrev next_line : List Token → Option (List ℕ) × List Token
next_line (line ns ∷ ts) = (some ns, ts)
next_line ts = (none, ts)

abbrev tokens_io : Stdio
tokens_io = record {
  File = List Token;
  scan_uint = next_uint;
  scan_int = next_uint;
  scan_ulong = next_uint;
  scan_word = next_word;
  skip_space = λ f. f;
  gets = next_line;
  scan_ints = take;
}

abbrev Holding : List Token → List Token → Type 0
Holding f ts = f ≡ ts

tokens_io-Scans : Scans tokens_io Holding
tokens_io-Scans = record {
  word_law = λ f w ts e. (ts, rw e refl, refl);
  number_law = λ f n ts e. (ts, rw e refl, refl);
  space_law = λ f ts e. e;
  line_law = λ f ns ts e. (ns, ts, rw e refl, refl, refl);
}

abbrev program : List Command
program = alloc 300 0 ∷ calc ∷ syscall (101 ∷ 1 ∷ []) ∷ []

load-print_example :
    load tokens_io
      (replicate 20 97)
      (some (number 1 ∷ number 3 ∷ print_program program))
      7
      (worker [] 0)
    ≡ ok (
        some (record (worker [] 0) {
          pid = 7;
          path = replicate 16 97;
          text = map inst_of program;
          code_size = 3;
          pc = 0;
          bp = 1024;
        }))
load-print_example =
    load-print tokens_io Holding tokens_io-Scans program 1 7 (replicate 20 97) (worker [] 0)
      (number 1 ∷ number 3 ∷ print_program program) refl

-- A configuration of one processor and one process at "input/proc/s0", in the file "input/a"
tokens_io-Decimals : Decimals tokens_io Holding
tokens_io-Decimals = record {
  int_law = λ f n ts e. (ts, rw e refl, refl);
  ulong_law = λ f n ts e. (ts, rw e refl, refl);
}

abbrev setting : Setting
setting = record {
  time_slot = 2;
  num_cpus = 1;
  memramsz = 512;
  swap_0 = 1024;
  swap_1 = 0;
  swap_2 = 0;
  swap_3 = 0;
  jobs = record { start_time = 3; name = 115 ∷ 48 ∷ []; prio = 1 } ∷ [];
}

setting-AllShort : AllShort setting.jobs
setting-AllShort = omega arith

setting-Sizes : Sizes (config_of setting).memswpsz
setting-Sizes zero n e = ground (arith, e)
setting-Sizes (suc zero) n e = ground (arith, e)
setting-Sizes (suc (suc zero)) n e = ground (arith, e)
setting-Sizes (suc (suc (suc zero))) n e = ground (arith, e)
setting-Sizes (suc (suc (suc (suc i)))) n e = ground (arith, e)

read_config-print_example :
    read_config tokens_io (some (print_setting setting)) ≡ ok (some (config_of setting))
read_config-print_example =
    read_config-print tokens_io Holding tokens_io-Scans tokens_io-Decimals setting
      (print_setting setting) (omega arith) setting-AllShort refl

-- The only file that can be opened is the configuration, under any name.
abbrev only_setting : List ℕ → Option (List Token)
only_setting path = some (print_setting setting)

abbrev idle_sched : Sched
idle_sched = record {
  ready_queue = none_waiting;
  run_queue = none_waiting;
  running_list = none_waiting;
  mlq_ready_queue = none_waiting ∷ none_waiting ∷ [];
  slot = [];
}

idle_sched-Hold : Hold idle_sched.mlq_ready_queue ([] ∷ [] ∷ [])
idle_sched-Hold = level none_waiting-Holds (level none_waiting-Holds no_level)

main-begins_example :
    (sys : System) × (t : Timer) × (main tokens_io only_setting idle_sched
        (ram null)
        ((97 ∷ []) ∷ [])
      ≡ ok (begins (config_of setting) sys t))
    × IsFresh (ram null) sys.mram 512 1
    × AllFresh (ram null) sys.mswp (1024 ∷ 0 ∷ 0 ∷ 0 ∷ [])
    × (sys.procs ≡ [])
    × Hold sys.sched.mlq_ready_queue ([] ∷ [] ∷ [])
    × (take_proc sys ≡ ok (none, sys))
    × Attached t
    × (length t.dev_list ≡ 1 + 1)
main-begins_example =
    main-begins tokens_io Holding only_setting (print_setting setting) idle_sched ([] ∷ [] ∷ [])
      (ram null) (97 ∷ []) setting tokens_io-Scans tokens_io-Decimals (omega arith) refl refl
      (omega arith) setting-AllShort (omega arith) (omega arith) setting-Sizes idle_sched-Hold

abbrev no_file : List ℕ → Option (List Token)
no_file path = none

main-exits_example :
    (◌≢◌ {A = ℕ} 1 1 → main tokens_io no_file idle_sched (ram null) ((97 ∷ []) ∷ []) ≡ ok (exits 1))
    × ((arg : List ℕ)
        → ◌≡◌ {A = List (List ℕ)} ((97 ∷ []) ∷ []) (arg ∷ [])
        → (length arg < 94
            → no_file (input_dir ++ arg) ≡ none
            → main tokens_io no_file idle_sched (ram null) ((97 ∷ []) ∷ []) ≡ ok (exits 1))
          × (94 ≤ length arg
              → main tokens_io no_file idle_sched (ram null) ((97 ∷ []) ∷ []) ≡ fault))
main-exits_example = main-exits tokens_io no_file idle_sched (ram null) ((97 ∷ []) ∷ [])
