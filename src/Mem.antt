-- ===== src/Mem.antt =====
-- The older memory of src/mem.c, and the functions of src/cpu.c on registers that use it when
-- MM_PAGING is not defined. An `addr_t` is a pattern of 32 bits; `none` is a value that nobody wrote.
pub mod Layers
pub mod Registers
use waguri.Base.{
  ℕ, zero, suc, ◌+◌, ◌-◌, ◌*◌, ◌/◌, ◌%◌, ◌^◌, bit_and, Option, none, some, List, [], ◌∷◌, ◌==◌,
  if◌then◌else◌, get_elem?, set, replicate, Run, ok, fault, ◌>>=◌, defined,
}
use waguri.Cint.{slt}
use waguri.Pte.{bit_not}
use waguri.Machine.{Process}

abbrev pub address_size : ℕ
address_size = 20

abbrev pub offset_len : ℕ
offset_len = 10

abbrev pub page_len : ℕ
page_len = 5

abbrev pub num_pages : ℕ
num_pages = 2 ^ (address_size - offset_len)

abbrev pub page_size : ℕ
page_size = 2 ^ offset_len

-- An entry of `_mem_stat`, and the static variables
pub record MemStat : Type 0 where
  pub proc : ℕ
  pub index : ℕ
  pub next : ℕ

pub record Memory : Type 0 where
  pub ram : List ℕ
  pub mem_stat : List MemStat

-- `init_mem`
unfoldable pub init_mem : Memory
init_mem = record {
  ram = replicate (2 ^ address_size) 0;
  mem_stat = replicate num_pages (record { proc = 0; index = 0; next = 0 });
}

-- `get_offset`, `get_first_lv`, `get_second_lv`
unfoldable pub get_offset : ℕ → ℕ
get_offset addr = bit_and addr (bit_not (bit_not 0 * 2 ^ offset_len % 2 ^ 32))

unfoldable pub get_first_lv : ℕ → ℕ
get_first_lv addr = addr / 2 ^ (offset_len + page_len)

unfoldable pub get_second_lv : ℕ → ℕ
unfolding get_first_lv
get_second_lv addr =
    (addr / 2 ^ offset_len + (2 ^ 32 - get_first_lv addr * 2 ^ page_len % 2 ^ 32)) % 2 ^ 32

-- The rows of a table of the second layer up to its size: the virtual and the physical indices
abbrev pub TransTable : Type 0
TransTable = List (ℕ × ℕ)

-- `struct page_table_t`; a `size` that nobody wrote is `none`.
pub record PageTable : Type 0 where
  pub table : List (ℕ × Option TransTable)
  pub size : Option ℕ

-- The loop of `get_trans_table` with `left` rounds to go, whose body is empty
empty_rounds : ℕ → Option TransTable
empty_rounds zero = none
empty_rounds (suc left) = empty_rounds left

-- `get_trans_table`
unfoldable pub get_trans_table : ℕ → PageTable → Run (Option TransTable)
unfolding empty_rounds
get_trans_table index page_table = do
  size ← defined page_table.size
  ok (empty_rounds (if slt 0 size then size else 0))

-- The loop of `translate`
unfoldable pub find_row : ℕ → TransTable → ℕ
find_row second_lv [] = 0
find_row second_lv ((v_index, p_index) ∷ rows) =
    let rest = find_row second_lv rows in if v_index == second_lv then 1 else rest

-- `translate`, which never writes `*physical_addr`
abbrev pub in_table : ℕ → Option TransTable → ℕ
in_table second_lv none = 0
in_table second_lv (some rows) = find_row second_lv rows

unfoldable pub translate : ℕ → PageTable → Run ℕ
unfolding get_trans_table
translate virtual_addr page_table = do
  trans_table ← get_trans_table (get_first_lv virtual_addr) page_table
  ok (in_table (get_second_lv virtual_addr) trans_table)

-- `alloc_mem`: the address, and the process. Nothing sets `mem_avail`.
abbrev pub mem_avail : ℕ
mem_avail = 0

unfoldable pub alloc_mem : ℕ → Process → ℕ × Process
alloc_mem size proc =
    let pages = if size % page_size == 0 then size / page_size + 1 else size / page_size in
    if mem_avail == 0
    then (0, proc)
    else (proc.bp, record proc { bp = (proc.bp + pages * page_size) % 2 ^ 32 })

-- `free_mem`
abbrev pub free_mem : ℕ → ℕ
free_mem address = 0

-- `read_mem`: the code, and `*data` where it is written
unfoldable pub read_mem : ℕ → PageTable → Memory → Run (ℕ × Option ℕ)
unfolding translate
read_mem address page_table mem = do
  found ← translate address page_table
  if found == 0 then ok (1, none) else fault

-- `write_mem`
unfoldable pub write_mem : ℕ → PageTable → Memory → ℕ → Run (ℕ × Memory)
unfolding translate
write_mem address page_table mem byte = do
  found ← translate address page_table
  if found == 0 then ok (1, mem) else fault

-- `proc->regs[i]`, and its assignment
abbrev pub get_reg : Process → ℕ → Run ℕ
get_reg proc i = do reg ← defined (get_elem? proc.regs i); defined reg

abbrev pub set_reg : Process → ℕ → Option ℕ → Run Process
set_reg proc i value = do
  reg ← defined (get_elem? proc.regs i)
  ok (record proc { regs = set proc.regs i value })

-- `alloc`
unfoldable pub alloc : Process → ℕ → ℕ → Run (ℕ × Process)
unfolding alloc_mem
alloc proc size reg_index =
    let (addr, proc') = alloc_mem size proc in
    let stored = (do proc'' ← set_reg proc' reg_index (some addr); ok (0, proc'')) in
    if addr == 0 then ok (1, proc') else stored

-- `free_data`
unfoldable pub free_data : Process → ℕ → Run ℕ
free_data proc reg_index = do address ← get_reg proc reg_index; ok (free_mem address)

-- `read`, which stores `data` when `read_mem` gives a code other than 0
unfoldable pub read : Process → PageTable → Memory → ℕ → ℕ → ℕ → Run (ℕ × Process)
unfolding read_mem
read proc page_table mem source offset destination = do
  base ← get_reg proc source
  (code, byte) ← read_mem ((base + offset) % 2 ^ 32) page_table mem
  let stored = (do proc' ← set_reg proc destination byte; ok (0, proc'))
  if code == 0 then ok (1, proc) else stored

-- `write`
unfoldable pub write : Process → PageTable → Memory → ℕ → ℕ → ℕ → Run (ℕ × Memory)
unfolding write_mem
write proc page_table mem byte destination offset = do
  base ← get_reg proc destination
  write_mem ((base + offset) % 2 ^ 32) page_table mem byte
