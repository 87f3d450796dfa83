-- ===== src/Libmem/Free.antt =====
-- `__free`, and the list of free regions that it leaves behind.
use waguri.Base.{
  ℕ, ◌≤◌, ◌<◌, ◌≡◌, refl, arith, le→ltb, lt→ltb, false, ◌||◌, some, get_elem?, ok, fault, Chain,
  wild, cons,
}
use waguri.Cint.{slt, to_int}
use waguri.Mm.{Region, Vma, Caller}
use waguri.Vm.Areas.{get_free_vmrg_area-wild}
use waguri.Libmem.{
  get_symrg_byid, get_symrg, enlist_vm_freerg_list, alloc, free, libfree, liballoc, max_symtbl_sz,
}

-- The state after the free list of the first area was replaced.
abbrev pub with_list : Caller → Vma → Chain Vma → Chain Region → Caller
with_list caller v rest list = record caller {
  mm = record mm { mmap = cons (record v { vm_freerg_list = list }) rest };
}
  where
    open caller use {mm}

alloc-dangling :
    (caller : Caller) (rgid size : ℕ) (v : Vma) (rest : Chain Vma)
    → slt (to_int v.vm_id) 0 ≡ false
    → alloc (with_list caller v rest wild) 0 rgid size ≡ fault
unfolding alloc
alloc-dangling caller rgid size v rest named =
    rw
      (get_free_vmrg_area-wild (with_list caller v rest wild) size
        (record v { vm_freerg_list = wild }) rest refl named refl)
      refl

-- Freeing a region of the table reports success. An empty one changes nothing; any other leaves
-- the list of free regions with a head that points to storage which is gone, and every allocation
-- after it follows that pointer.
pub libfree_cases :
    (caller : Caller) (rgid : ℕ) (rg : Region) (v : Vma) (rest : Chain Vma)
    → rgid < max_symtbl_sz
    → get_elem? caller.mm.symrgtbl rgid ≡ some rg
    → caller.mm.mmap ≡ cons v rest
    → slt (to_int v.vm_id) 0 ≡ false
    → (rg.rg_end ≤ rg.rg_start → libfree caller rgid ≡ ok (0, caller))
      × (rg.rg_start < rg.rg_end
          → (libfree caller rgid ≡ ok (0, with_list caller v rest wild))
            × ((rgid' size : ℕ) → liballoc (with_list caller v rest wild) size rgid' ≡ fault))
unfolding libfree free liballoc get_symrg_byid get_symrg enlist_vm_freerg_list
libfree_cases caller rgid rg v rest below listed area named =
    let inside : (slt rgid 0 || slt max_symtbl_sz rgid) ≡ false = ground arith in
    (
      (λ flat. rw (inside, listed, area, le→ltb rg.rg_start rg.rg_end flat) refl),
      λ full. (
        rw (inside, listed, area, lt→ltb rg.rg_start rg.rg_end full) refl,
        λ rgid' size. rw (alloc-dangling caller rgid' size v rest named) refl,
      ),
    )
