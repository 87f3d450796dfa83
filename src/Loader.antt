-- ===== src/Loader.antt =====
-- The loader of src/loader.c. The C library's functions on a file are a parameter (Stdio); a text is
-- the list of its bytes. `none` as a result is a call of `exit`.
pub mod RoundTrip
use waguri.Base.{
  ℕ, zero, suc, ◌+◌, ◌*◌, ◌%◌, ◌^◌, Bool, Option, none, some, List, [], ◌∷◌, leb, if◌then◌else◌,
  length, take, replicate, get_elem?, Run, ok, fault, ◌>>=◌, defined,
}
use waguri.Machine.{Opcode, Inst, Process, same_text}

-- One conversion `%u`, `%d`, `%lu` or `%s` of `fscanf`, the white space of its format, `fgets`, and the numbers
-- that `sscanf` stores for up to so many conversions `%d`. `none` is a conversion that fails, or the
-- end of the file.
pub record Stdio : Type 1 where
  pub File : Type 0
  pub scan_uint : File → Option ℕ × File
  pub scan_int : File → Option ℕ × File
  pub scan_ulong : File → Option ℕ × File
  pub scan_word : File → Option (List ℕ) × File
  pub skip_space : File → File
  pub gets : File → Option (List ℕ) × File
  pub scan_ints : ℕ → List ℕ → List ℕ

-- "calc", "alloc", "free", "read", "write", "syscall"
abbrev pub opt : Opcode → List ℕ
opt Opcode.calc = 99 ∷ 97 ∷ 108 ∷ 99 ∷ []
opt Opcode.alloc = 97 ∷ 108 ∷ 108 ∷ 111 ∷ 99 ∷ []
opt Opcode.free = 102 ∷ 114 ∷ 101 ∷ 101 ∷ []
opt Opcode.read = 114 ∷ 101 ∷ 97 ∷ 100 ∷ []
opt Opcode.write = 119 ∷ 114 ∷ 105 ∷ 116 ∷ 101 ∷ []
opt Opcode.syscall = 115 ∷ 121 ∷ 115 ∷ 99 ∷ 97 ∷ 108 ∷ 108 ∷ []

-- `get_opcode`
unfoldable pub get_opcode : List ℕ → Option Opcode
unfolding same_text
get_opcode text =
    if same_text text (opt Opcode.calc)
    then some Opcode.calc
    else if same_text text (opt Opcode.alloc)
    then some Opcode.alloc
    else if same_text text (opt Opcode.free)
    then some Opcode.free
    else if same_text text (opt Opcode.read)
    then some Opcode.read
    else if same_text text (opt Opcode.write)
    then some Opcode.write
    else if same_text text (opt Opcode.syscall)
    then some Opcode.syscall
    else none

-- The arguments that were read, in their order
abbrev pub with_args : Opcode → List ℕ → Inst
with_args op args = record {
  opcode = op;
  arg_0 = get_elem? args 0;
  arg_1 = get_elem? args 1;
  arg_2 = get_elem? args 2;
  arg_3 = get_elem? args 3;
}

abbrev pub opcode_size : ℕ
opcode_size = 10

-- A step after which the program goes on, unless it called `exit`
abbrev or_exit {ℓ κ} : {A : Type ℓ} {B : Type κ} → Option A → (A → Run (Option B)) → Run (Option B)
or_exit none next = ok none
or_exit (some a) next = next a

module _ (io : Stdio) where
  -- A conversion and those after it
  abbrev pub stored : Option ℕ → io.File → List ℕ × io.File → List ℕ × io.File
  stored none file rest = ([], file)
  stored (some n) file (ns, file') = (n ∷ ns, file')

  -- `fscanf` with so many `%u` and white space at the end: the first that fails ends it.
  unfoldable pub scan_args : ℕ → io.File → List ℕ × io.File
  scan_args zero file = ([], io.skip_space file)
  scan_args (suc k) file = let (n, file₁) = io.scan_uint file in stored n file₁ (scan_args k file₁)

  -- `buf` after `fgets`, which leaves it as it was at the end of the file
  abbrev pub after_gets : Option (List ℕ) → Option (List ℕ) → Option (List ℕ)
  after_gets (some line) buf = some line
  after_gets none buf = buf

  -- The `switch` of `load`: the arguments, `buf`, which nobody has written as long as it is `none`, and the file
  unfoldable pub load_args :
      Opcode → Option (List ℕ) → io.File → Run (List ℕ × Option (List ℕ) × io.File)
  unfolding scan_args
  load_args Opcode.calc buf file = ok ([], buf, file)
  load_args Opcode.alloc buf file = let (args, file') = scan_args 2 file in ok (args, buf, file')
  load_args Opcode.free buf file = let (args, file') = scan_args 1 file in ok (args, buf, file')
  load_args Opcode.read buf file = let (args, file') = scan_args 3 file in ok (args, buf, file')
  load_args Opcode.write buf file = let (args, file') = scan_args 3 file in ok (args, buf, file')
  load_args Opcode.syscall buf file = do
    let (line, file') = io.gets file
    text ← defined (after_gets line buf)
    ok (io.scan_ints 4 text, some text, file')

  -- `opcode` after `fscanf`: the word that was read, or what the array held; a word that does not fit
  -- in it is written past its end.
  unfoldable pub opcode_buffer : Option (List ℕ) → Option (List ℕ) → Run (List ℕ)
  opcode_buffer none held = defined held
  opcode_buffer (some word) held = if leb opcode_size (length word) then fault else ok word

  -- The loop of `load` with `left` instructions to go
  unfoldable pub load_loop :
      ℕ → Option (List ℕ) → Option (List ℕ) → io.File → Run (Option (List Inst))
  load_loop zero held buf file = ok (some [])
  load_loop (suc left) held buf file = do
    let (word, file₁) = io.scan_word file
    text ← opcode_buffer word held
    or_exit (get_opcode text) (λ op. do
      (args, buf', file₂) ← load_args op buf file₁
      rest ← load_loop left (some text) buf' file₂
      or_exit rest (λ insts. ok (some (with_args op args ∷ insts))))

  -- `2*sizeof(path)+1` bytes, with the 0 at the end
  abbrev pub kept_path : List ℕ → List ℕ
  kept_path path = take (2 * 8) path

  -- `load` of the file that `fopen` gives for a path, with the number `avail_pid`; `blank` is the block as
  -- `malloc` leaves it.
  unfoldable pub load : List ℕ → Option io.File → ℕ → Process → Run (Option Process)
  unfolding load_loop
  load path none avail_pid blank = ok none
  load path (some file) avail_pid blank = do
    let (priority, file₁) = io.scan_uint file
    let (size, file₂) = io.scan_uint file₁
    first ← defined priority
    code_size ← defined size
    text ← load_loop code_size none none file₂
    or_exit text (λ insts. ok (
        some (record blank {
          pid = avail_pid;
          path = kept_path path;
          text = insts;
          code_size = code_size;
          pc = 0;
          bp = 2 ^ 10;
        })))
