-- ===== src/Loader/RoundTrip.antt =====
-- The loader of src/loader.c reads back the programs that a process file describes.
use waguri.Base.{
  ℕ, ◌≡◌, refl, ap, ◌∙◌, Option, none, some, List, [], ◌∷◌, map, length, take, ok, get_elem?,
}
use waguri.Machine.{Opcode, Inst, Process, same_text}
use waguri.Loader.{
  Stdio, opt, get_opcode, with_args, stored, scan_args, load_args, opcode_buffer, load_loop, load,
}

-- What a file holds from its position on: words and numbers with white space around them, and after
-- the word of a system call the rest of its line, with the numbers on it.
pub data Token : Type 0 where
  word : List ℕ → Token
  number : ℕ → Token
  line : List ℕ → Token

-- What the C library's functions do on a file that holds these tokens
pub record Scans (io : Stdio) (At : io.File → List Token → Type 0) : Type 0 where
  pub word_law :
      (f : io.File) (w : List ℕ) (ts : List Token)
      → At f (word w ∷ ts)
      → (f' : io.File) × (io.scan_word f ≡ (some w, f')) × At f' ts
  pub number_law :
      (f : io.File) (n : ℕ) (ts : List Token)
      → At f (number n ∷ ts)
      → (f' : io.File) × (io.scan_uint f ≡ (some n, f')) × At f' ts
  pub space_law : (f : io.File) (ts : List Token) → At f ts → At (io.skip_space f) ts
  pub line_law :
      (f : io.File) (ns : List ℕ) (ts : List Token)
      → At f (line ns ∷ ts)
      → (buf : List ℕ) × (f' : io.File) × (io.gets f ≡ (some buf, f'))
        × (io.scan_ints 4 buf ≡ take 4 ns)
        × At f' ts

-- A line of a program
pub data Command : Type 0 where
  calc : Command
  alloc : (size reg : ℕ) → Command
  free : (reg : ℕ) → Command
  read : (source offset destination : ℕ) → Command
  write : (value destination offset : ℕ) → Command
  syscall : List ℕ → Command

abbrev pub opcode_of : Command → Opcode
opcode_of calc = Opcode.calc
opcode_of (alloc _ _) = Opcode.alloc
opcode_of (free _) = Opcode.free
opcode_of (read _ _ _) = Opcode.read
opcode_of (write _ _ _) = Opcode.write
opcode_of (syscall _) = Opcode.syscall

abbrev pub args_of : Command → List ℕ
args_of calc = []
args_of (alloc a b) = a ∷ b ∷ []
args_of (free a) = a ∷ []
args_of (read a b c) = a ∷ b ∷ c ∷ []
args_of (write a b c) = a ∷ b ∷ c ∷ []
args_of (syscall ns) = take 4 ns

abbrev pub print_args : Command → List Token → List Token
print_args calc ts = ts
print_args (alloc a b) ts = number a ∷ number b ∷ ts
print_args (free a) ts = number a ∷ ts
print_args (read a b c) ts = number a ∷ number b ∷ number c ∷ ts
print_args (write a b c) ts = number a ∷ number b ∷ number c ∷ ts
print_args (syscall ns) ts = line ns ∷ ts

abbrev pub print_program : List Command → List Token
print_program [] = []
print_program (c ∷ cs) = word (opt (opcode_of c)) ∷ print_args c (print_program cs)

-- The instruction that a line stands for
abbrev pub inst : Opcode → Option ℕ → Option ℕ → Option ℕ → Option ℕ → Inst
inst op a b c d = record { opcode = op; arg_0 = a; arg_1 = b; arg_2 = c; arg_3 = d }

abbrev pub inst_of : Command → Inst
inst_of calc = inst Opcode.calc none none none none
inst_of (alloc a b) = inst Opcode.alloc (some a) (some b) none none
inst_of (free a) = inst Opcode.free (some a) none none none
inst_of (read a b c) = inst Opcode.read (some a) (some b) (some c) none
inst_of (write a b c) = inst Opcode.write (some a) (some b) (some c) none
inst_of (syscall ns) =
    inst Opcode.syscall (get_elem? ns 0) (get_elem? ns 1) (get_elem? ns 2) (get_elem? ns 3)

with_args-args_of : (c : Command) → with_args (opcode_of c) (args_of c) ≡ inst_of c
with_args-args_of calc = refl
with_args-args_of (alloc a b) = refl
with_args-args_of (free a) = refl
with_args-args_of (read a b c) = refl
with_args-args_of (write a b c) = refl
with_args-args_of (syscall []) = refl
with_args-args_of (syscall (a ∷ [])) = refl
with_args-args_of (syscall (a ∷ b ∷ [])) = refl
with_args-args_of (syscall (a ∷ b ∷ c ∷ [])) = refl
with_args-args_of (syscall (a ∷ b ∷ c ∷ d ∷ ns)) = refl

get_opcode-opt : (op : Opcode) → get_opcode (opt op) ≡ some op
unfolding get_opcode same_text
get_opcode-opt Opcode.calc = refl
get_opcode-opt Opcode.alloc = refl
get_opcode-opt Opcode.free = refl
get_opcode-opt Opcode.read = refl
get_opcode-opt Opcode.write = refl
get_opcode-opt Opcode.syscall = refl

opcode_buffer-opt :
    (io : Stdio) (op : Opcode) (held : Option (List ℕ))
    → opcode_buffer io (some (opt op)) held ≡ ok (opt op)
unfolding opcode_buffer
opcode_buffer-opt io Opcode.calc held = refl
opcode_buffer-opt io Opcode.alloc held = refl
opcode_buffer-opt io Opcode.free held = refl
opcode_buffer-opt io Opcode.read held = refl
opcode_buffer-opt io Opcode.write held = refl
opcode_buffer-opt io Opcode.syscall held = refl

module _ (io : Stdio) (At : io.File → List Token → Type 0) (scans : Scans io At) where
  abbrev numbers : List ℕ → List Token → List Token
  numbers [] ts = ts
  numbers (n ∷ ns) ts = number n ∷ numbers ns ts

  scan_args-numbers :
      (ns : List ℕ) (f : io.File) (ts : List Token)
      → At f (numbers ns ts)
      → (f' : io.File) × (scan_args io (length ns) f ≡ (ns, f')) × At f' ts
  unfolding scan_args
  scan_args-numbers [] f ts at = (io.skip_space f, refl, scans.space_law f ts at)
  scan_args-numbers (n ∷ ns) f ts at =
      let (f₁, one, at₁) = scans.number_law f n (numbers ns ts) at in
      let (f₂, rest, at₂) = scan_args-numbers ns f₁ ts at₁ in
      (
        f₂,
        (λ i. stored io (one i).0 (one i).1 (scan_args io (length ns) (one i).1))
            ∙ (λ i. stored io (some n) f₁ (rest i)),
        at₂,
      )

  load_args-print :
      (c : Command) (buf : Option (List ℕ)) (f : io.File) (ts : List Token)
      → At f (print_args c ts)
      → (buf' : Option (List ℕ)) × (f' : io.File) × (load_args io (opcode_of c) buf f
          ≡ ok (args_of c, buf', f'))
        × At f' ts
  unfolding load_args
  load_args-print calc buf f ts at = (buf, f, refl, at)
  load_args-print (alloc a b) buf f ts at =
      let (f', run, at') = scan_args-numbers (a ∷ b ∷ []) f ts at in
      (buf, f', ap (λ r. ok (r.0, buf, r.1)) run, at')
  load_args-print (free a) buf f ts at =
      let (f', run, at') = scan_args-numbers (a ∷ []) f ts at in
      (buf, f', ap (λ r. ok (r.0, buf, r.1)) run, at')
  load_args-print (read a b c) buf f ts at =
      let (f', run, at') = scan_args-numbers (a ∷ b ∷ c ∷ []) f ts at in
      (buf, f', ap (λ r. ok (r.0, buf, r.1)) run, at')
  load_args-print (write a b c) buf f ts at =
      let (f', run, at') = scan_args-numbers (a ∷ b ∷ c ∷ []) f ts at in
      (buf, f', ap (λ r. ok (r.0, buf, r.1)) run, at')
  load_args-print (syscall ns) buf f ts at =
      let (text, f', got, ints, at') = scans.line_law f ns ts at in
      (some text, f', rw (got, ints) refl, at')

  load_loop-print :
      (cs : List Command) (held buf : Option (List ℕ)) (f : io.File)
      → At f (print_program cs)
      → load_loop io (length cs) held buf f ≡ ok (some (map inst_of cs))
  unfolding load_loop
  load_loop-print [] held buf f at = refl
  load_loop-print (c ∷ cs) held buf f at =
      let (f₁, first, at₁) =
        scans.word_law f (opt (opcode_of c)) (print_args c (print_program cs)) at in
      let (buf', f₂, args, at₂) = load_args-print c buf f₁ (print_program cs) at₁ in
      let rest = load_loop-print cs (some (opt (opcode_of c))) buf' f₂ at₂ in
      rw (first, opcode_buffer-opt io (opcode_of c) held, get_opcode-opt (opcode_of c), args, rest)
        (λ i. ok (some (with_args-args_of c i ∷ map inst_of cs)))

  -- A process file that holds a priority, the number of commands and the commands loads as a process at
  -- its first instruction, whose instructions are the commands with just the arguments that they have; of the path the first 16
  -- bytes are kept.
  pub load-print :
      (cs : List Command) (prio pid : ℕ) (path : List ℕ) (blank : Process) (f : io.File)
      → At f (number prio ∷ number (length cs) ∷ print_program cs)
      → load io path (some f) pid blank
        ≡ ok (
            some (record blank {
              pid = pid;
              path = take 16 path;
              text = map inst_of cs;
              code_size = length cs;
              pc = 0;
              bp = 1024;
            }))
  unfolding load
  load-print cs prio pid path blank f at =
      let (f₁, one, at₁) = scans.number_law f prio (number (length cs) ∷ print_program cs) at in
      let (f₂, two, at₂) = scans.number_law f₁ (length cs) (print_program cs) at₁ in
      rw (one, two, load_loop-print cs none none f₂ at₂) refl
