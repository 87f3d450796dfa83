-- ===== src/Libmem.antt =====
-- The memory library of a process, src/libmem.c: regions given out and
-- taken back. Its system calls are all number 17, which
-- src/syscall.c hands to `sys_memmap`. What the functions print is left out; the lock that
-- `__alloc` holds orders whole calls, which is how they are run here.
pub mod Alloc
pub mod Free
use waguri.Base.{
  ℕ, zero, suc, ◌+◌, ◌-◌, ◌%◌, ◌^◌, Bool, ◌||◌, Option, none, some, List, ◌==◌, ltb, if◌then◌else◌,
  get_elem?, set, Run, ok, fault, ◌>>=◌, defined, Chain, null, wild, cons,
}
use waguri.Cint.{slt, sadd, sext64, to_int}
use waguri.Pte.{
  page_present, fpn_of, swp_of, pgn_of, offst_of, phyaddr, pte_set_fpn, pte_set_swap, setbit,
  present_mask, max_pgn,
}
use waguri.Memphy.{Memphy, failure, get_freefp, put_freefp}
use waguri.Mm.{Region as Rg, Vma, Mm, Caller, get_pte, set_pte, enlist_pgn_node, find_victim_page}
use waguri.PageAlloc.{get_mswp, set_mswp}
use waguri.Vm.{get_vma_by_num, vma_at, set_vma, deref, page_alignsz, get_free_vmrg_area}
use waguri.Sysmem.{
  ScRegs, sysmem_inc_op, sysmem_swp_op, sysmem_io_read, sysmem_io_write, sys_memmap, extended,
}

abbrev pub max_symtbl_sz : ℕ
max_symtbl_sz = 30

-- `get_symrg_byid`: a position in `symrgtbl`, or NULL.
unfoldable pub get_symrg_byid : ℕ → Option ℕ
get_symrg_byid rgid = if slt rgid 0 || slt max_symtbl_sz rgid then none else some rgid

-- `symrgtbl[rgid]` read and written
unfoldable pub get_symrg : Mm → ℕ → Run Rg
get_symrg mm rgid = defined (get_elem? mm.symrgtbl rgid)

pub set_symrg : Caller → ℕ → Rg → Run Caller
unfolding get_symrg
set_symrg caller rgid rg = do
  old ← get_symrg caller.mm rgid
  ok (record caller { mm = record mm { symrgtbl = set mm.symrgtbl rgid rg } })
  where
    open caller use {mm}

-- `enlist_vm_freerg_list` puts the region before the free list of the first area: the code, and
-- that list.
pub enlist_vm_freerg_list : Chain Rg → Rg → ℕ × Chain Rg
enlist_vm_freerg_list list rg_elmt =
    if ltb rg_elmt.rg_start rg_elmt.rg_end then (0, cons rg_elmt list) else (failure, list)

-- `__alloc`: the code, `*alloc_addr`, and the state.
pub alloc : Caller → ℕ → ℕ → ℕ → Run (ℕ × Option ℕ × Caller)
unfolding set_symrg
alloc caller vmaid rgid size = do
  (found, caller₁) ← get_free_vmrg_area caller vmaid size
  elim found [
    | some rgnode ↦ do
      caller₂ ← set_symrg caller₁ rgid rgnode
      ok (0, some (to_int rgnode.rg_start), caller₂)
    | none ↦ do
      cur ← get_vma_by_num caller₁.mm vmaid
      inc_sz ← page_alignsz size
      i ← deref cur
      cur_vma ← vma_at caller₁.mm.mmap i
      let old_sbrk = to_int cur_vma.sbrk
      (code, regs, caller₂) ←
          sys_memmap caller₁ (record { a1 = some sysmem_inc_op; a2 = some vmaid; a3 = some inc_sz })
      if code == 0
          then (do
            top ← sadd old_sbrk inc_sz
            caller₃ ←
                set_symrg caller₂ rgid (record { rg_start = sext64 old_sbrk; rg_end = sext64 top })
            ok (0, some old_sbrk, caller₃))
          else ok (failure, none, caller₂)
  ]

-- The list in the first area, after a call of `__free` has put a node of its own frame on it: when
-- the call returns the node is gone, and the list's head points nowhere.
abbrev pub after_return : ℕ × Chain Rg → Chain Rg
after_return (code, list) = if code == 0 then wild else list

-- `mm->mmap->vm_freerg_list`
abbrev pub with_freerg : Chain Vma → (Chain Rg → Chain Rg) → Run (Chain Vma)
with_freerg null f = fault
with_freerg wild f = fault
with_freerg (cons v rest) f = ok (cons (record v { vm_freerg_list = f v.vm_freerg_list }) rest)

-- `__free`, which does not use the area's number
pub free : Caller → ℕ → Run (ℕ × Caller)
unfolding get_symrg_byid get_symrg enlist_vm_freerg_list
free caller rgid = if slt rgid 0 || slt max_symtbl_sz rgid then ok (failure, caller) else do
  i ← deref (get_symrg_byid rgid)
  rgnode ← get_symrg caller.mm i
  mmap ← with_freerg caller.mm.mmap (λ l. after_return (enlist_vm_freerg_list l rgnode))
  ok (0, record caller { mm = record caller.mm { mmap = mmap } })

-- `liballoc` and `libfree`; area 0 is used always.
pub liballoc : Caller → ℕ → ℕ → Run (ℕ × Caller)
unfolding alloc
liballoc proc size reg_index = do (val, addr, proc') ← alloc proc 0 reg_index size; ok (val, proc')

pub libfree : Caller → ℕ → Run (ℕ × Caller)
unfolding free
libfree proc reg_index = free proc reg_index
