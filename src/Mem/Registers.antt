-- ===== src/Mem/Registers.antt =====
-- What the instructions of src/cpu.c do without MM_PAGING: src/mem.c hands out no memory.
use waguri.Base.{
  ℕ, zero, suc, ◌+◌, ◌%◌, ◌^◌, ◌≡◌, refl, Option, none, some, get_elem?, set, ok, if◌then◌else◌,
}
use waguri.Cint.{slt}
use waguri.Machine.{Process}
use waguri.Mem.{
  PageTable, Memory, empty_rounds, get_trans_table, translate, alloc_mem, read_mem, write_mem,
  alloc, free_data, read, write,
}

empty_rounds-none : (left : ℕ) → empty_rounds left ≡ none
unfolding empty_rounds
empty_rounds-none zero = refl
empty_rounds-none (suc left) = empty_rounds-none left

-- No address is valid.
translate-none : (addr size : ℕ) (t : PageTable) → t.size ≡ some size → translate addr t ≡ ok 0
unfolding translate get_trans_table
translate-none addr size t e = rw (e, empty_rounds-none (if slt 0 size then size else 0)) refl

-- On a register that holds an address: `alloc` and `write` fail and change nothing, `free_data`
-- reports success, and `read`, for which no read of memory succeeds, reports success and leaves an
-- indeterminate value in its register.
registers_cases :
    (proc : Process) (t : PageTable) (mem : Memory)
    (size source offset destination byte base rows : ℕ) (old : Option ℕ)
    → t.size ≡ some rows
    → get_elem? proc.regs source ≡ some (some base)
    → get_elem? proc.regs destination ≡ some old
    → (alloc proc size destination ≡ ok (1, proc))
      × (free_data proc source ≡ ok 0)
      × (write proc t mem byte source offset ≡ ok (1, mem))
      × (read proc t mem source offset destination
          ≡ ok (0, record proc { regs = set proc.regs destination none }))
unfolding alloc free_data write read alloc_mem write_mem read_mem
registers_cases proc t mem size source offset destination byte base rows old count here there =
    let none_found = translate-none ((base + offset) % 2 ^ 32) rows t count in
    (refl, rw here refl, rw (here, none_found) refl, rw (here, none_found, there) refl)
