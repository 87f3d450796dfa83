-- ===== src/Vm.antt =====
-- Virtual memory areas: src/mm-vm.c, and the search for a free region of src/libmem.c. A pointer
-- to an area is its position in the list of areas; `none` is NULL.
pub mod Areas
pub mod Grow
use waguri.Base.{
  ℕ, zero, suc, ◌+◌, ◌-◌, ◌%◌, ◌^◌, Bool, ◌||◌, Option, none, some, ◌==◌, ltb, leb, if◌then◌else◌,
  Run, ok, fault, ◌>>=◌, Chain, null, wild, cons,
}
use waguri.Cint.{slt, sadd, smul, sdiv, sext64, to_int}
use waguri.Memphy.{failure}
use waguri.Mm.{Region, Vma, Mm, Caller}
use waguri.PageAlloc.{vm_map_ram, swap_out}

-- `unsigned long` addition
abbrev pub add64 : ℕ → ℕ → ℕ
add64 a b = (a + b) % 2 ^ 64

-- The loop of `get_vma_by_num` at area `i`. It steps before it looks for the end of the list.
vma_loop : ℕ → ℕ → Vma → Chain Vma → Run (Option ℕ)
vma_loop vmaid i v null = if slt (to_int v.vm_id) vmaid then fault else ok (some i)
vma_loop vmaid i v wild = if slt (to_int v.vm_id) vmaid then fault else ok (some i)
vma_loop vmaid i v (cons w rest) =
    let next = vma_loop vmaid (i + 1) w rest in
    if slt (to_int v.vm_id) vmaid then next else ok (some i)

vma_start : ℕ → Chain Vma → Run (Option ℕ)
unfolding vma_loop
vma_start vmaid null = ok none
vma_start vmaid wild = fault
vma_start vmaid (cons v rest) = vma_loop vmaid 0 v rest

-- `get_vma_by_num`
unfoldable pub get_vma_by_num : Mm → ℕ → Run (Option ℕ)
unfolding vma_start
get_vma_by_num mm vmaid = vma_start vmaid mm.mmap

-- `*p` for the area at position `i`, read and written
abbrev pub vma_at : Chain Vma → ℕ → Run Vma
vma_at null i = fault
vma_at wild i = fault
vma_at (cons v rest) zero = ok v
vma_at (cons v rest) (suc i) = vma_at rest i

abbrev pub put_vma : Chain Vma → ℕ → Vma → Chain Vma
put_vma null i w = null
put_vma wild i w = wild
put_vma (cons v rest) zero w = cons w rest
put_vma (cons v rest) (suc i) w = cons v (put_vma rest i w)

abbrev pub deref : Option ℕ → Run ℕ
deref none = fault
deref (some i) = ok i

pub set_vma : Caller → ℕ → Vma → Caller
set_vma caller i v = record caller { mm = record mm { mmap = put_vma mm.mmap i v } }
  where
    open caller use {mm}

-- `get_vm_area_node_at_brk`
pub get_vm_area_node_at_brk : Caller → ℕ → ℕ → Run Region
get_vm_area_node_at_brk caller vmaid size = do
  found ← get_vma_by_num caller.mm vmaid
  i ← deref found
  cur_vma ← vma_at caller.mm.mmap i
  ok (record { rg_start = cur_vma.sbrk; rg_end = add64 cur_vma.sbrk (sext64 size) })

-- `validate_overlap_vm_area`: the loop runs while the pointer is NULL.
pub validate_overlap_vm_area : Caller → ℕ → ℕ → ℕ → Run ℕ
validate_overlap_vm_area caller vmaid vmastart vmaend = elim caller.mm.mmap [
  | null ↦ fault
  | wild ↦ fault
  | cons v rest ↦ ok 0
]

-- `PAGING_PAGE_ALIGNSZ` of an `int`
pub page_alignsz : ℕ → Run ℕ
page_alignsz sz = do
  up ← sadd sz 256
  top ← sadd up 0xffff_ffff
  pages ← sdiv top 256
  smul pages 256

-- `inc_vma_limit`
pub inc_vma_limit : Caller → ℕ → ℕ → Run (ℕ × Caller)
unfolding get_vm_area_node_at_brk validate_overlap_vm_area page_alignsz set_vma
inc_vma_limit caller vmaid inc_sz = do
  inc_amt ← page_alignsz inc_sz
  incnumpage ← sdiv inc_amt 256
  area ← get_vm_area_node_at_brk caller vmaid inc_sz
  found ← get_vma_by_num caller.mm vmaid
  i ← deref found
  cur_vma ← vma_at caller.mm.mmap i
  overlap ← validate_overlap_vm_area caller vmaid (to_int area.rg_start) (to_int area.rg_end)
  if slt overlap 0 then ok (failure, caller) else do
    (mapped, caller') ←
        vm_map_ram
          (set_vma caller i (record cur_vma {
            vm_end = add64 cur_vma.vm_end (sext64 inc_sz);
            sbrk = add64 cur_vma.sbrk (sext64 inc_sz);
          }))
          (to_int cur_vma.vm_end) incnumpage
    if slt mapped 0 then ok (failure, caller') else ok (0, caller')

-- `__mm_swap_page`
unfoldable pub mm_swap_page : Caller → ℕ → ℕ → Run (ℕ × Caller)
mm_swap_page caller vicfpn swpfpn = do
  caller' ← swap_out caller vicfpn caller.active_mswp swpfpn
  ok (0, caller')

-- The size of a free region, both ends counted
abbrev pub freesize : Region → ℕ
freesize r = (r.rg_end + 2 ^ 64 - r.rg_start + 1) % 2 ^ 64

-- The loop of `get_free_vmrg_area`: the region handed out, and the list that is left.
pub free_area_loop : ℕ → Chain Region → Run (Option Region × Chain Region)
free_area_loop size null = ok (none, null)
free_area_loop size wild = fault
free_area_loop size (cons curr rest) =
    let next = (do (newrg, rest') ← free_area_loop size rest; ok (newrg, cons curr rest')) in
    if ltb (freesize curr) (sext64 size) || ltb curr.rg_end curr.rg_start
    then ok (none, cons curr rest)
    else if leb (sext64 size) (freesize curr)
    then ok (
      some (record {
        rg_start = curr.rg_start;
        rg_end = (curr.rg_start + sext64 size + 2 ^ 64 - 1) % 2 ^ 64;
      }),
      (if ltb (sext64 size) (freesize curr)
          then cons (record curr { rg_start = add64 curr.rg_start (sext64 size) }) rest
          else rest),
    )
    else next

-- `get_free_vmrg_area`: `none` is the -1.
pub get_free_vmrg_area : Caller → ℕ → ℕ → Run (Option Region × Caller)
unfolding free_area_loop set_vma
get_free_vmrg_area caller vmaid size = do
  found ← get_vma_by_num caller.mm vmaid
  elim found [
    | none ↦ ok (none, caller)
    | some i ↦ do
      cur_vma ← vma_at caller.mm.mmap i
      (newrg, kept) ← free_area_loop size cur_vma.vm_freerg_list
      ok (newrg, set_vma caller i (record cur_vma { vm_freerg_list = kept }))
  ]
