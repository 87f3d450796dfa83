-- ===== src/Print.antt =====
-- What the functions of src/mm.c, src/mm-memphy.c and src/mem.c that show their data print. Each call of
-- `printf` is a value with the numbers that it is given: an `int` or a `char` as a pattern of 32 bits,
-- and a format with as many constructors as it has texts.
pub mod Lists
pub mod Table
pub mod Dump
pub mod Pages
use waguri.Base.{
  ℕ, zero, suc, ◌+◌, ◌-◌, ◌*◌, ◌%◌, ◌^◌, Option, none, some, List, [], ◌∷◌, ◌++◌, ◌==◌,
  if◌then◌else◌, get_elem?, Run, ok, fault, ◌>>=◌, defined, Chain, null, wild, cons,
}
use waguri.Cint.{slt, sdiv, sext_char}
use waguri.Pte.{pgn_of}
use waguri.Memphy.{Memphy, failure}
use waguri.Mm.{Region, Vma, Mm, Caller}
use waguri.Vm.{get_vma_by_num, vma_at, deref}
use waguri.Mem.{MemStat, Memory, page_size}

-- The functions that show a list, by the name that they print first
pub data Listing : Type 0 where
  print_list_fp : Listing
  print_list_rg : Listing
  print_list_vma : Listing
  print_list_pgn : Listing

pub data Out : Type 0 where
  name : Listing → Out
  null_list : Out
  newline : Out
  letter_n : Out
  fp : (fpn : ℕ) → Out
  rg : (rg_start rg_end : ℕ) → Out
  va : (vm_start vm_end : ℕ) → Out
  page : (pgn : ℕ) → Out
  table_head : (start end : ℕ) → Out
  null_caller : Out
  entry : (offset pte : ℕ) → Out
  word : (addr b0 b1 b2 b3 : ℕ) → Out
  frame_head : (i first last : ℕ) (stat : MemStat) → Out
  byte : (j value : ℕ) → Out

-- The `while` of a list
unfoldable pub each {ℓ} : {A : Type ℓ} → (A → Out) → Chain A → Run (List Out)
each show null = ok []
each show wild = fault
each show (cons a rest) = do outs ← each show rest; ok (show a ∷ outs)

-- The four functions differ in what they print of an element, and at the end.
unfoldable pub print_list {ℓ} :
    {A : Type ℓ} → Listing → (A → Out) → Out → Chain A → Run (ℕ × List Out)
unfolding each
print_list which show last null = ok (failure, name which ∷ null_list ∷ [])
print_list which show last wild = fault
print_list which show last (cons a rest) = do
  outs ← each show (cons a rest)
  ok (0, name which ∷ newline ∷ outs ++ last ∷ [])

unfoldable pub list_fp : Chain ℕ → Run (ℕ × List Out)
unfolding print_list
list_fp ifp = print_list print_list_fp fp newline ifp

unfoldable pub list_rg : Chain Region → Run (ℕ × List Out)
unfolding print_list
list_rg irg = print_list print_list_rg (λ r. rg r.rg_start r.rg_end) newline irg

unfoldable pub list_vma : Chain Vma → Run (ℕ × List Out)
unfolding print_list
list_vma ivma = print_list print_list_vma (λ v. va v.vm_start v.vm_end) newline ivma

unfoldable pub list_pgn : Chain ℕ → Run (ℕ × List Out)
unfolding print_list
list_pgn ip = print_list print_list_pgn page letter_n ip

-- `end` of `print_pgtbl` when it is not -1, and the end of area 0 when it is
unfoldable pub table_end : Option Caller → ℕ → Run ℕ
table_end caller end =
    if end == failure
    then (do
      c ← defined caller
      found ← get_vma_by_num c.mm 0
      i ← deref found
      cur_vma ← vma_at c.mm.mmap i
      ok (cur_vma.vm_end % 2 ^ 32))
    else ok end

-- The loop of `print_pgtbl` from page `pgit`, with `left` pages to go
unfoldable pub table_loop : ℕ → ℕ → List ℕ → Run (List Out)
table_loop zero pgit pgd = ok []
table_loop (suc left) pgit pgd = do
  pte ← defined (get_elem? pgd pgit)
  outs ← table_loop left (pgit + 1) pgd
  ok (entry (pgit * 4) pte ∷ outs)

-- What follows the first line of `print_pgtbl`
unfoldable pub table_rows : Option Caller → ℕ → ℕ → Run (ℕ × List Out)
table_rows none pgn_start pgn_end = ok (failure, null_caller ∷ [])
table_rows (some c) pgn_start pgn_end = do
  outs ← table_loop (pgn_end - pgn_start) pgn_start c.mm.pgd
  ok (0, newline ∷ outs)

-- `print_pgtbl` of a process that may be NULL
unfoldable pub print_pgtbl : Option Caller → ℕ → ℕ → Run (ℕ × List Out)
unfolding table_end table_rows
print_pgtbl caller start end = do
  end' ← table_end caller end
  (code, outs) ← table_rows caller (pgn_of start) (pgn_of end')
  ok (code, table_head start end' ∷ outs)

-- The sum of the four bytes of a word, which are of type `char`
abbrev pub word_sum : ℕ → ℕ → ℕ → ℕ → ℕ
word_sum b0 b1 b2 b3 = (sext_char b0 + sext_char b1 + sext_char b2 + sext_char b3) % 2 ^ 32

-- The loop of `MEMPHY_dump` from word `i`, with `left` words to go
unfoldable pub dump_loop : ℕ → ℕ → List ℕ → Run (List Out)
dump_loop zero i storage = ok []
dump_loop (suc left) i storage = do
  b0 ← defined (get_elem? storage (i * 4))
  b1 ← defined (get_elem? storage (i * 4 + 1))
  b2 ← defined (get_elem? storage (i * 4 + 2))
  b3 ← defined (get_elem? storage (i * 4 + 3))
  outs ← dump_loop left (i + 1) storage
  let line = word (i * 4) (sext_char b0) (sext_char b1) (sext_char b2) (sext_char b3)
  ok (if word_sum b0 b1 b2 b3 == 0 then outs else line ∷ outs)

-- `MEMPHY_dump`
unfoldable pub memphy_dump : Memphy → Run (ℕ × List Out)
memphy_dump mp = do
  words ← sdiv mp.maxsz 4
  outs ← dump_loop (if slt 0 words then words else 0) 0 mp.storage
  ok (0, outs)

-- The inner loop of `dump` of src/mem.c from byte `j`, with `left` bytes to go
unfoldable pub bytes_loop : ℕ → ℕ → List ℕ → Run (List Out)
bytes_loop zero j ram = ok []
bytes_loop (suc left) j ram = do
  b ← defined (get_elem? ram j)
  outs ← bytes_loop left (j + 1) ram
  ok (if b == 0 then outs else byte j (sext_char b) ∷ outs)

-- What it prints of the page `i`
unfoldable pub frame_outs : ℕ → MemStat → List ℕ → Run (List Out)
frame_outs i stat ram =
    let shown = (do
      outs ← bytes_loop (page_size - 1) (i * page_size) ram
      ok (frame_head i (i * page_size) ((i + 1) * page_size - 1) stat ∷ outs)) in
    if stat.proc == 0 then ok [] else shown

-- Its outer loop, from the page `i`
unfoldable pub frames_loop : ℕ → List MemStat → List ℕ → Run (List Out)
frames_loop i [] ram = ok []
frames_loop i (stat ∷ stats) ram = do
  outs ← frame_outs i stat ram
  rest ← frames_loop (i + 1) stats ram
  ok (outs ++ rest)

-- `dump` of src/mem.c
unfoldable pub dump : Memory → Run (List Out)
dump mem = frames_loop 0 mem.mem_stat mem.ram
