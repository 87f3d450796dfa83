-- ===== src/Libmem/Alloc.antt =====
-- `__alloc` where the free list of the area has nothing that fits.
use mathlib.Core.List.{reverse}
use waguri.Base.{
  ℕ, ◌+◌, ◌-◌, ◌*◌, ◌≤◌, ◌<◌, ◌^◌, ◌≡◌, refl, arith, some, List, ok, Chain, null, cons, chain,
  length, set, get_elem?-some,
}
use waguri.Cint.{sadd-ok, is_neg-lt}
use waguri.Pte.{pgn_of}
use waguri.Memphy.{failure}
use waguri.Mm.{Region, Vma, Mm, Caller}
use waguri.Mm.Mapping.{Mapped}
use waguri.PageAlloc.Taking.{taken}
use waguri.Vm.{inc_vma_limit}
use waguri.Vm.Areas.{get_vma_by_num-first, page_alignsz-ok, get_free_vmrg_area-head, vma_at-first}
use waguri.Vm.Grow.{
  HasRoom, grown, pages_of, to_int-ok, inc_vma_limit-Mapped, inc_vma_limit-exhausted,
}
use waguri.Sysmem.{sys_memmap, sysmem_inc_op}
use waguri.Libmem.{set_symrg, alloc}

-- A request of area 0 that the head of the free list is too small for, and the state around it.
-- `aligned` is the size in whole pages.
pub record Request (caller : Caller) (rgid size : ℕ) (v : Vma) (rest : Chain Vma) (r : Region)
    (more : Chain Region) : Type 0 where
  pub room : HasRoom caller.mm 0 (pages_of size * 256) v rest
  pub wanted : 0 < size
  pub table : rgid < length caller.mm.symrgtbl
  pub head : v.vm_freerg_list ≡ cons r more
  pub ordered : r.rg_start ≤ r.rg_end
  pub fits : r.rg_end + 1 < 2 ^ 63
  pub tight : r.rg_end + 1 - r.rg_start < size

inc_call :
    (caller : Caller) (vmaid sz : ℕ) (code : ℕ) (caller' : Caller)
    → inc_vma_limit caller vmaid sz ≡ ok (code, caller')
    → sys_memmap caller (record { a1 = some sysmem_inc_op; a2 = some vmaid; a3 = some sz })
      ≡ ok (0, record { a1 = some sysmem_inc_op; a2 = some vmaid; a3 = some sz }, caller')
unfolding sys_memmap
inc_call caller vmaid sz code caller' e = rw e refl

abbrev pub with_region : Caller → ℕ → Region → Caller
with_region caller rgid rg = record caller { mm = record mm { symrgtbl = set mm.symrgtbl rgid rg } }
  where
    open caller use {mm}

set_symrg-ok :
    (caller : Caller) (rgid : ℕ) (rg : Region)
    → rgid < length caller.mm.symrgtbl
    → set_symrg caller rgid rg ≡ ok (with_region caller rgid rg)
unfolding set_symrg
set_symrg-ok caller rgid rg h = let (old, e) = get_elem?-some caller.mm.symrgtbl rgid h in rw e refl

alloc-reduced :
    (caller caller' : Caller) (rgid size code : ℕ) (v : Vma) (rest : Chain Vma) (r : Region)
    (more : Chain Region)
    → Request caller rgid size v rest r more
    → inc_vma_limit caller 0 (pages_of size * 256) ≡ ok (code, caller')
    → caller'.mm.symrgtbl ≡ caller.mm.symrgtbl
    → alloc caller 0 rgid size
      ≡ ok (
        0,
        some v.sbrk,
        with_region caller' rgid
            (record { rg_start = v.sbrk; rg_end = v.sbrk + pages_of size * 256 }),
      )
unfolding alloc
alloc-reduced caller caller' rgid size code v rest r more q e et =
    rw
      (
        get_free_vmrg_area-head caller size v rest r more q.room.first q.room.named q.head q.ordered
            q.fits q.tight (omega (arith, q.room.small)),
        get_vma_by_num-first caller.mm 0 v rest q.room.first q.room.named,
        page_alignsz-ok size (omega (arith, q.room.small)),
        vma_at-first caller v rest q.room.first,
        inc_call caller 0 (pages_of size * 256) code caller' e,
        to_int-ok v.sbrk (omega (arith, q.room.brk)),
        sadd-ok v.sbrk (pages_of size * 256) q.room.brk,
        is_neg-lt v.sbrk (omega (arith, q.room.brk)),
        is_neg-lt (v.sbrk + pages_of size * 256) q.room.brk,
        set_symrg-ok caller' rgid
            (record { rg_start = v.sbrk; rg_end = v.sbrk + pages_of size * 256 }) (rw et q.table),
      )
      refl

-- A request that the free list cannot serve, with a free frame for each of its pages: the region
-- starts at the old break and spans whole pages, the limit and the break of the area grow by that
-- much, and the new pages are mapped to the first frames of the free list.
pub alloc-Mapped :
    (caller : Caller) (rgid size : ℕ) (v : Vma) (rest : Chain Vma) (r : Region)
    (more : Chain Region) (fs : List ℕ) (left : Chain ℕ)
    → Request caller rgid size v rest r more
    → length fs ≡ pages_of size
    → pgn_of v.vm_end + length fs ≤ length caller.mm.pgd
    → caller.mram.free_fp_list ≡ chain fs left
    → (mm' : Mm) × (alloc caller 0 rgid size
        ≡ ok (
          0,
          some v.sbrk,
          with_region
              (record (taken caller fs left) { mm = mm' })
              rgid
              (record { rg_start = v.sbrk; rg_end = v.sbrk + pages_of size * 256 }),
        ))
      × Mapped (grown caller (pages_of size * 256) v rest).mm mm' (pgn_of v.vm_end) (reverse fs)
alloc-Mapped caller rgid size v rest r more fs left q n hp e =
    let (mm', g, m) =
      inc_vma_limit-Mapped caller 0 (pages_of size * 256) v rest fs left q.room (omega (arith, n))
        (omega (arith, q.wanted)) hp e in
    (
      mm',
      alloc-reduced caller (record (taken caller fs left) { mm = mm' }) rgid size 0 v rest r more q
          g m.symbols,
      m,
    )

-- A request that the free list cannot serve, with neither a free frame nor a page to evict: the
-- allocation reports success and records a region at the old break, the limit and the break of the area grow by whole
-- pages, and nothing else changes, so no page of the region is mapped.
pub alloc-exhausted :
    (caller : Caller) (rgid size : ℕ) (v : Vma) (rest : Chain Vma) (r : Region)
    (more : Chain Region)
    → Request caller rgid size v rest r more
    → caller.mram.free_fp_list ≡ null
    → caller.mm.fifo_pgn ≡ null
    → alloc caller 0 rgid size
      ≡ ok (
        0,
        some v.sbrk,
        record caller {
          mm = record caller.mm {
            mmap =
                cons
                  (record v {
                    vm_end = v.vm_end + pages_of size * 256;
                    sbrk = v.sbrk + pages_of size * 256;
                  })
                  rest;
            symrgtbl =
                set caller.mm.symrgtbl rgid
                  (record { rg_start = v.sbrk; rg_end = v.sbrk + pages_of size * 256 });
          };
        },
      )
alloc-exhausted caller rgid size v rest r more q ef eq =
    let g =
      inc_vma_limit-exhausted caller 0 (pages_of size * 256) v rest q.room (omega (arith, q.wanted))
        ef eq in
    alloc-reduced caller (grown caller (pages_of size * 256) v rest) rgid size failure v rest r more
      q g refl
