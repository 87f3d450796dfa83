-- ===== src/PageAccess/Region.antt =====
-- Reads and writes of a process's regions, by `libread` and `libwrite`.
use waguri.Base.{
  ℕ, ◌≤◌, ◌<◌, ◌^◌, ◌≡◌, refl, arith, false, Option, none, some, ok, fault, Chain, cons, length,
  get_elem?, get_elem?-past,
}
use waguri.Cint.{slt, to_int, sext_char}
use waguri.Pte.{fpn_of, offst_of, phyaddr}
use waguri.Memphy.{failure}
use waguri.Mm.{Region, Vma, Mm, Caller}
use waguri.Vm.Areas.{get_vma_by_num-first}
use waguri.Sysmem.{extended}
use waguri.Libmem.{get_symrg, max_symtbl_sz}
use waguri.PageAccess.{pg_getval, pg_setval, region_addr, lookup, libread, libwrite}
use waguri.PageAccess.Present.{InRam, pg_getval-InRam, pg_getval-pg_setval}

-- The process has an area, and `rgid` is a region of its table.
pub record HasRegion (caller : Caller) (rgid : ℕ) (rg : Region) (v : Vma) (rest : Chain Vma)
    : Type 0 where
  pub area : caller.mm.mmap ≡ cons v rest
  pub named : slt (to_int v.vm_id) 0 ≡ false
  pub listed : get_elem? caller.mm.symrgtbl rgid ≡ some rg
  pub below : rgid < max_symtbl_sz

module _ (caller : Caller) (v : Vma) (rest : Chain Vma) (area : caller.mm.mmap ≡ cons v rest)
    (named : slt (to_int v.vm_id) 0 ≡ false) where
  lookup_within : (rgid : ℕ) → rgid ≤ 30 → lookup caller 0 rgid ≡ ok (some rgid)
  unfolding lookup
  lookup_within rgid h = rw (get_vma_by_num-first caller.mm 0 v rest area named) (ground arith)

  lookup_beyond : (rgid : ℕ) → 30 < rgid → rgid < 2 ^ 32 → lookup caller 0 rgid ≡ ok none
  unfolding lookup
  lookup_beyond rgid h h' = rw (get_vma_by_num-first caller.mm 0 v rest area named) (ground arith)

get_symrg-past : (mm : Mm) (i : ℕ) → length mm.symrgtbl ≤ i → get_symrg mm i ≡ fault
unfolding get_symrg
get_symrg-past mm i h = rw (get_elem?-past mm.symrgtbl i h)

lookup-found :
    {caller : Caller} {rgid : ℕ} {rg : Region} {v : Vma} {rest : Chain Vma}
    → HasRegion caller rgid rg v rest
    → lookup caller 0 rgid ≡ ok (some rgid)
lookup-found {caller} {rgid} {rg} {v} {rest} r =
    lookup_within caller v rest r.area r.named rgid (omega (arith, r.below))

get_symrg-listed :
    {caller : Caller} {rgid : ℕ} {rg : Region} {v : Vma} {rest : Chain Vma}
    → HasRegion caller rgid rg v rest
    → get_symrg caller.mm rgid ≡ ok rg
unfolding get_symrg
get_symrg-listed r = rw (r.listed)

-- A byte that `libwrite` puts into a region whose page is in memory is what `libread` stores at
-- the same offset, sign extended to 32 bits; the read changes nothing.
pub libread-libwrite :
    (caller : Caller) (rgid offset value pte : ℕ) (rg : Region) (v : Vma) (rest : Chain Vma)
    → value < 256
    → HasRegion caller rgid rg v rest
    → InRam caller (region_addr rg offset) pte
    → (caller' : Caller) × (libwrite caller value rgid offset ≡ ok (0, caller'))
      × (libread caller' rgid offset ≡ ok (0, some (sext_char value), caller'))
unfolding libwrite libread
libread-libwrite caller rgid offset value pte rg v rest small r i =
    let (cells, w, e, g) = pg_getval-pg_setval caller (region_addr rg offset) pte value small i in
    let caller' : Caller = record caller { mram = record caller.mram { storage = cells } } in
    let r' : HasRegion caller' rgid rg v rest = record {
      area = r.area;
      named = r.named;
      listed = r.listed;
      below = r.below;
    } in
    (
      caller',
      rw (lookup-found r, get_symrg-listed r, w) refl,
      rw (lookup-found r', get_symrg-listed r', g) refl,
    )

-- `libread` from a region whose page is in memory stores the byte there, sign extended.
pub libread-InRam :
    (caller : Caller) (rgid offset value pte : ℕ) (rg : Region) (v : Vma) (rest : Chain Vma)
    → value < 256
    → HasRegion caller rgid rg v rest
    → InRam caller (region_addr rg offset) pte
    → get_elem? caller.mram.storage (phyaddr (fpn_of pte) (offst_of (region_addr rg offset)))
      ≡ some value
    → libread caller rgid offset ≡ ok (0, some (sext_char value), caller)
unfolding libread
libread-InRam caller rgid offset value pte rg v rest small r i at =
    rw
      (
        lookup-found r,
        get_symrg-listed r,
        pg_getval-InRam caller (region_addr rg offset) pte value small i at,
      )
      refl

-- Number 30 passes the check of region numbers although the table has 30 entries, 0 to 29: a read
-- or a write of that region runs off the table. From 31 on both are refused with -1.
pub region_past_table :
    (caller : Caller) (rgid offset value : ℕ) (v : Vma) (rest : Chain Vma)
    → caller.mm.mmap ≡ cons v rest
    → slt (to_int v.vm_id) 0 ≡ false
    → length caller.mm.symrgtbl ≡ max_symtbl_sz
    → (rgid ≡ 30
        → (libread caller rgid offset ≡ fault) × (libwrite caller value rgid offset ≡ fault))
      × (30 < rgid
          → rgid < 2 ^ 32
          → (libread caller rgid offset ≡ ok (failure, none, caller))
            × (libwrite caller value rgid offset ≡ ok (failure, caller)))
unfolding libwrite libread
region_past_table caller rgid offset value v rest ea en el = (
  λ e.
      rw
        (
          lookup_within caller v rest ea en rgid (omega arith),
          get_symrg-past caller.mm rgid (omega arith),
        )
        (refl, refl),
  λ lo hi. rw (lookup_beyond caller v rest ea en rgid lo hi) (refl, refl),
)

-- With the lookups done, `libread` and `libwrite` report success whatever the access itself gave.
pub access_code_dropped :
    (caller : Caller) (rgid offset value : ℕ) (rg : Region) (v : Vma) (rest : Chain Vma)
    → HasRegion caller rgid rg v rest
    → ((code : ℕ) (byte : Option ℕ) (caller' : Caller)
        → pg_getval caller (region_addr rg offset) ≡ ok (code, byte, caller')
        → libread caller rgid offset ≡ ok (0, extended byte, caller'))
      × ((code : ℕ) (caller' : Caller)
          → pg_setval caller (region_addr rg offset) value ≡ ok (code, caller')
          → libwrite caller value rgid offset ≡ ok (0, caller'))
unfolding libwrite libread
access_code_dropped caller rgid offset value rg v rest r = (
  λ code byte caller' e. rw (lookup-found r, get_symrg-listed r, e) refl,
  λ code caller' e. rw (lookup-found r, get_symrg-listed r, e) refl,
)
