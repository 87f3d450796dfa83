-- ===== src/PageAccess.antt =====
-- Bytes of a process's pages, src/libmem.c: pages brought in, reads, writes, and the frames that a
-- process gives back. The system calls are as in `Libmem`.
pub mod Present
pub mod Region
pub mod SwapIn
pub mod Fetch
pub mod Giveback
use waguri.Base.{
  ℕ, zero, suc, ◌+◌, ◌-◌, ◌%◌, ◌^◌, Bool, ◌||◌, Option, none, some, List, ◌==◌, ltb, if◌then◌else◌,
  get_elem?, set, Run, ok, fault, ◌>>=◌, defined, Chain, null, wild, cons,
}
use waguri.Cint.{slt, sadd, sext64, to_int}
use waguri.Pte.{
  page_present, fpn_of, swp_of, pgn_of, offst_of, phyaddr, pte_set_fpn, pte_set_swap, setbit,
  present_mask, max_pgn,
}
use waguri.Memphy.{Memphy, failure, get_freefp, put_freefp}
use waguri.Mm.{Region as Rg, Vma, Mm, Caller, get_pte, set_pte, enlist_pgn_node, find_victim_page}
use waguri.PageAlloc.{get_mswp, set_mswp}
use waguri.Vm.{get_vma_by_num, vma_at, set_vma, deref, page_alignsz, get_free_vmrg_area}
use waguri.Sysmem.{
  ScRegs, sysmem_inc_op, sysmem_swp_op, sysmem_io_read, sysmem_io_write, sys_memmap, extended,
}
use waguri.Libmem.{get_symrg_byid, get_symrg}

-- The part of `pg_getpage` for a page that is not present: the new entry.
pub swap_in : Caller → ℕ → ℕ → Run (ℕ × ℕ × Caller)
swap_in caller pgn pte = do
  (code, vicpgn?, mm) ← find_victim_page caller.mm
  mp ← get_mswp caller caller.active_mswp
  (code', swpfpn?, mp') ← get_freefp mp
  vicpgn ← defined vicpgn?
  vicpte ← get_pte mm vicpgn
  let vicfpn = fpn_of vicpte
  (out, regs, caller₁) ←
      sys_memmap (set_mswp (record caller { mm = mm }) caller.active_mswp mp')
        (record { a1 = some sysmem_swp_op; a2 = some vicfpn; a3 = swpfpn? })
  if out == 0
      then (do
        (back, regs', caller₂) ←
            sys_memmap caller₁
              (record { a1 = some sysmem_swp_op; a2 = some (swp_of pte); a3 = some vicfpn })
        swpfpn ← defined swpfpn?
        let pte' = setbit (pte_set_fpn pte vicfpn) present_mask
        if back == 0
            then ok (
              0,
              pte',
              record caller₂ {
                mm =
                    enlist_pgn_node
                      (set_pte
                        (set_pte caller₂.mm vicpgn
                          (pte_set_swap vicpte caller₂.active_mswp_id swpfpn))
                        pgn pte')
                      pgn;
              },
            )
            else ok (failure, pte, caller₂))
      else ok (failure, pte, caller₁)

-- `pg_getpage`: the code, `*fpn`, and the state.
pub pg_getpage : Caller → ℕ → Run (ℕ × Option ℕ × Caller)
unfolding swap_in
pg_getpage caller pgn = do
  pte ← get_pte caller.mm pgn
  if page_present pte then ok (0, some (fpn_of pte), caller) else do
    (code, pte', caller') ← swap_in caller pgn pte
    if code == 0 then ok (0, some (fpn_of pte'), caller') else ok (failure, none, caller')

-- `(BYTE)(regs.a3)`
abbrev pub as_byte : Option ℕ → Option ℕ
as_byte none = none
as_byte (some v) = some (v % 256)

-- `pg_getval`: the code, `*data`, and the state.
pub pg_getval : Caller → ℕ → Run (ℕ × Option ℕ × Caller)
pg_getval caller addr = do
  (code, fpn?, caller₁) ← pg_getpage caller (pgn_of addr)
  if code == 0
      then (do
        fpn ← defined fpn?
        (code', regs, caller₂) ← sys_memmap caller₁ (record {
          a1 = some sysmem_io_read;
          a2 = some (phyaddr fpn (offst_of addr));
          a3 = none;
        })
        if code' == 0 then ok (0, as_byte regs.a3, caller₂) else ok (failure, none, caller₂))
      else ok (failure, none, caller₁)

-- `pg_setval`; a value of type BYTE is sign extended into the register.
pub pg_setval : Caller → ℕ → ℕ → Run (ℕ × Caller)
pg_setval caller addr value = do
  (code, fpn?, caller₁) ← pg_getpage caller (pgn_of addr)
  if code == 0
      then (do
        fpn ← defined fpn?
        (code', regs, caller₂) ← sys_memmap caller₁ (record {
          a1 = some sysmem_io_write;
          a2 = some (phyaddr fpn (offst_of addr));
          a3 = extended (some value);
        })
        if code' == 0 then ok (0, caller₂) else ok (failure, caller₂))
      else ok (failure, caller₁)

-- `currg->rg_start + offset`, passed on as an `int`
abbrev pub region_addr : Rg → ℕ → ℕ
region_addr currg offset = to_int ((currg.rg_start + sext64 offset) % 2 ^ 64)

-- The two lookups of `__read` and `__write`: `none` where one of them gives NULL.
pub lookup : Caller → ℕ → ℕ → Run (Option ℕ)
unfolding get_symrg_byid
lookup caller vmaid rgid = do
  cur_vma ← get_vma_by_num caller.mm vmaid
  elim cur_vma [ none ↦ ok none | some i ↦ ok (get_symrg_byid rgid) ]

-- `__read`, which passes on no code of `pg_getval`
pub read : Caller → ℕ → ℕ → ℕ → Run (ℕ × Option ℕ × Caller)
unfolding lookup get_symrg
read caller vmaid rgid offset = do
  currg ← lookup caller vmaid rgid
  elim currg [
    | none ↦ ok (failure, none, caller)
    | some i ↦ do
      rg ← get_symrg caller.mm i
      (code, data', caller') ← pg_getval caller (region_addr rg offset)
      ok (0, data', caller')
  ]

-- `libread`: the code, what is stored in `*destination`, and the state.
pub libread : Caller → ℕ → ℕ → Run (ℕ × Option ℕ × Caller)
unfolding read
libread proc source offset = do
  (val, byte, proc') ← read proc 0 source offset
  if val == 0 then ok (val, extended byte, proc') else ok (val, none, proc')

-- `__write`, which passes on no code of `pg_setval`
pub write : Caller → ℕ → ℕ → ℕ → ℕ → Run (ℕ × Caller)
unfolding lookup get_symrg
write caller vmaid rgid offset value = do
  currg ← lookup caller vmaid rgid
  elim currg [
    | none ↦ ok (failure, caller)
    | some i ↦ do
      rg ← get_symrg caller.mm i
      (code, caller') ← pg_setval caller (region_addr rg offset) value
      ok (0, caller')
  ]

-- `libwrite`
pub libwrite : Caller → ℕ → ℕ → ℕ → Run (ℕ × Caller)
unfolding write
libwrite proc value destination offset = write proc 0 destination offset value

-- The body of the loop of `free_pcb_memph` for an entry: the memory gets a frame for a page that is
-- not present.
unfoldable pub give_page : Caller → ℕ → Run Caller
give_page caller pte =
    if page_present pte
    then (do
      mp ← get_mswp caller caller.active_mswp
      ok (set_mswp caller caller.active_mswp (put_freefp mp (swp_of pte)).1))
    else ok (record caller { mram = (put_freefp caller.mram (fpn_of pte)).1 })

-- The loop of `free_pcb_memph` with `left` pages to go.
free_pages_loop : ℕ → ℕ → Caller → Run Caller
unfolding give_page
free_pages_loop zero pagenum caller = ok caller
free_pages_loop (suc left) pagenum caller = do
  pte ← get_pte caller.mm pagenum
  caller' ← give_page caller pte
  free_pages_loop left (pagenum + 1) caller'

-- `free_pcb_memph`
pub free_pcb_memph : Caller → Run (ℕ × Caller)
unfolding free_pages_loop
free_pcb_memph caller = do caller' ← free_pages_loop max_pgn 0 caller; ok (0, caller')
