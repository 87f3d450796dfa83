-- ===== src/Sysmem/Calls.antt =====
-- What a caller of system call 17 learns, and what single calls do.
use waguri.Base.{ap, ◌∙◌, ℕ, ◌%◌, ◌<◌, ◌≡◌, refl, arith, Option, some, ok, set, get_elem?}
use waguri.Memphy.Access.{IsValid, IsRandom, read-ok, write-ok}
use waguri.Mm.{Caller}
use waguri.Sysmem.{ScRegs, sys_memmap, sysmem_io_read, sysmem_io_write, extended}

code_zero :
    (caller : Caller) (regs : ScRegs) {code : ℕ} {regs' : ScRegs} {caller' : Caller}
    → sys_memmap caller regs ≡ ok (code, regs', caller')
    → code ≡ 0
unfolding sys_memmap
code_zero caller regs h = ground arith

-- Every call of `__sys_memmap` that ends returns 0, whatever the operation and whatever code the
-- function that carries it out gave.
pub sys_memmap-zero :
    (caller : Caller) (regs : ScRegs) {code : ℕ} {regs' : ScRegs} {caller' : Caller}
    → sys_memmap caller regs ≡ ok (code, regs', caller')
    → sys_memmap caller regs ≡ ok (0, regs', caller')
sys_memmap-zero caller regs {code} {regs'} {caller'} h =
    h ∙ ap (λ c. ok (c, regs', caller')) (code_zero caller regs h)

pub sys_memmap-read :
    (caller : Caller) (addr v : ℕ) (a3 : Option ℕ)
    → IsValid caller.mram
    → IsRandom caller.mram
    → get_elem? caller.mram.storage addr ≡ some v
    → addr < caller.mram.maxsz
    → sys_memmap caller (record { a1 = some sysmem_io_read; a2 = some addr; a3 = a3 })
      ≡ ok (0, record { a1 = some sysmem_io_read; a2 = some addr; a3 = extended (some v) }, caller)
unfolding sys_memmap
sys_memmap-read caller addr v a3 valid random e h = rw (read-ok valid random e h) refl

pub sys_memmap-write :
    (caller : Caller) (addr v : ℕ)
    → IsValid caller.mram
    → IsRandom caller.mram
    → addr < caller.mram.maxsz
    → sys_memmap caller (record { a1 = some sysmem_io_write; a2 = some addr; a3 = some v })
      ≡ ok (
        0,
        record { a1 = some sysmem_io_write; a2 = some addr; a3 = some v },
        record caller {
          mram = record caller.mram { storage = set caller.mram.storage addr (v % 256) };
        },
      )
unfolding sys_memmap
sys_memmap-write caller addr v valid random h = rw (write-ok (v % 256) valid random h) refl
