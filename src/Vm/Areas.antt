-- ===== src/Vm/Areas.antt =====
-- Which area a number names, and what a free region gives.
use waguri.Base.{
  ℕ, suc, ◌+◌, ◌-◌, ◌*◌, ◌/◌, ◌≤◌, ◌<◌, ◌^◌, ◌≡◌, refl, ap, arith, true, false, none, some, List,
  [], ◌∷◌, ok, fault, Chain, null, wild, cons, chain, length,
}
use waguri.Cint.{slt, to_int, sadd-ok, sadd-minus_one, sdiv-ok, smul-ok}
use waguri.Mm.{Region, Vma, Mm, Caller}
use waguri.Vm.{
  vma_loop, vma_start, get_vma_by_num, vma_at, set_vma, free_area_loop, get_free_vmrg_area,
  page_alignsz,
}

-- The areas of `vs` all come before number `vmaid`.
abbrev pub AllBefore : ℕ → List Vma → Type 0
AllBefore vmaid [] = Unit
AllBefore vmaid (v ∷ vs) = (slt (to_int v.vm_id) vmaid ≡ true) × AllBefore vmaid vs

vma_loop-found :
    (vmaid i : ℕ) (v : Vma) (rest : Chain Vma)
    → slt (to_int v.vm_id) vmaid ≡ false
    → vma_loop vmaid i v rest ≡ ok (some i)
unfolding vma_loop
vma_loop-found vmaid i v null h = rw h
vma_loop-found vmaid i v wild h = rw h
vma_loop-found vmaid i v (cons w rest) h = rw h

pub get_vma_by_num-first :
    (mm : Mm) (vmaid : ℕ) (v : Vma) (rest : Chain Vma)
    → mm.mmap ≡ cons v rest
    → slt (to_int v.vm_id) vmaid ≡ false
    → get_vma_by_num mm vmaid ≡ ok (some 0)
unfolding get_vma_by_num
get_vma_by_num-first mm vmaid v rest e h = rw (e, vma_start) (vma_loop-found vmaid 0 v rest h)

vma_loop-missing :
    (vmaid i : ℕ) (v : Vma) (vs : List Vma)
    → AllBefore vmaid (v ∷ vs)
    → vma_loop vmaid i v (chain vs null) ≡ fault
unfolding vma_loop
vma_loop-missing vmaid i v [] h = rw h.0
vma_loop-missing vmaid i v (w ∷ vs) h = rw h.0 (vma_loop-missing vmaid (i + 1) w vs h.1)

vma_loop-passes :
    (vmaid i n : ℕ) (v : Vma) (vs : List Vma) (w : Vma) (rest : Chain Vma)
    → AllBefore vmaid (v ∷ vs)
    → slt (to_int w.vm_id) vmaid ≡ false
    → i + suc (length vs) ≡ n
    → vma_loop vmaid i v (chain vs (cons w rest)) ≡ ok (some n)
unfolding vma_loop
vma_loop-passes vmaid i n v [] w rest h hw e =
    let e' : i + 1 ≡ n = e in rw (h.0, vma_loop-found vmaid (i + 1) w rest hw, e')
vma_loop-passes vmaid i n v (u ∷ vs) w rest h hw e =
    rw h.0 (vma_loop-passes vmaid (i + 1) n u vs w rest h.1 hw (omega arith))

-- `get_vma_by_num` gives the first area whose number is not below the one asked for; with no area
-- at all it gives NULL; but where every area has a smaller number it follows a null pointer.
pub get_vma_by_num_cases :
    (mm : Mm) (vmaid : ℕ) (v : Vma) (vs : List Vma) (w : Vma) (rest : Chain Vma)
    → AllBefore vmaid (v ∷ vs)
    → slt (to_int w.vm_id) vmaid ≡ false
    → (get_vma_by_num (record mm { mmap = chain (v ∷ vs) (cons w rest) }) vmaid
        ≡ ok (some (suc (length vs))))
      × (get_vma_by_num (record mm { mmap = null }) vmaid ≡ ok none)
      × (get_vma_by_num (record mm { mmap = chain (v ∷ vs) null }) vmaid ≡ fault)
unfolding get_vma_by_num
get_vma_by_num_cases mm vmaid v vs w rest h hw = (
  vma_loop-passes vmaid 0 (suc (length vs)) v vs w rest h hw (omega arith),
  refl,
  vma_loop-missing vmaid 0 v vs h,
)

-- For a size above 0 and a region of `n` bytes at the head of the free list: if it is too small
-- the search fails at once, whatever regions follow; if it fits exactly it is handed out and
-- leaves the list; if it is larger its first part is handed out and the rest stays at the head.
pub free_area_loop_cases :
    (size n : ℕ) (curr : Region) (rest : Chain Region)
    → 0 < size
    → size < 2 ^ 31
    → 0 < n
    → curr.rg_end ≡ curr.rg_start + n - 1
    → curr.rg_start + n < 2 ^ 63
    → (n < size → free_area_loop size (cons curr rest) ≡ ok (none, cons curr rest))
      × (n ≡ size → free_area_loop size (cons curr rest) ≡ ok (some curr, rest))
      × (size < n
          → free_area_loop size (cons curr rest)
            ≡ ok (
              some (record curr { rg_end = curr.rg_start + size - 1 }),
              cons (record curr { rg_start = curr.rg_start + size }) rest,
            ))
unfolding free_area_loop
free_area_loop_cases size n curr rest h0 h1 hn e h2 = (ground arith, ground arith, ground arith)

pub page_alignsz-ok : (sz : ℕ) → sz + 256 < 2 ^ 31 → page_alignsz sz ≡ ok ((sz + 255) / 256 * 256)
unfolding page_alignsz
page_alignsz-ok sz h =
    rw
      (
        sadd-ok sz 256 h,
        sadd-minus_one (sz + 256) (omega arith) h,
        sdiv-ok (sz + 256 - 1) 256 (omega arith) (omega arith) (omega arith),
        smul-ok ((sz + 256 - 1) / 256) 256 (omega arith) (omega arith) (omega arith),
      )
      (ap ok (omega arith))

-- A head that is too small ends the search of area 0, and nothing changes.
pub get_free_vmrg_area-head :
    (caller : Caller) (size : ℕ) (v : Vma) (rest : Chain Vma) (r : Region) (more : Chain Region)
    → caller.mm.mmap ≡ cons v rest
    → slt (to_int v.vm_id) 0 ≡ false
    → v.vm_freerg_list ≡ cons r more
    → r.rg_start ≤ r.rg_end
    → r.rg_end + 1 < 2 ^ 63
    → r.rg_end + 1 - r.rg_start < size
    → size < 2 ^ 31
    → get_free_vmrg_area caller 0 size ≡ ok (none, caller)
unfolding get_free_vmrg_area set_vma
get_free_vmrg_area-head caller size v rest r more em en el h0 h1 h2 h3 =
    let n = r.rg_end + 1 - r.rg_start in
    let cut : free_area_loop size v.vm_freerg_list ≡ ok (none, v.vm_freerg_list) = rw el (
      (free_area_loop_cases size n r more (omega arith) h3 (omega arith) (omega arith)
          (omega arith)).0
        h2) in
    rw (get_vma_by_num-first caller.mm 0 v rest em en, em, cut) refl

pub vma_at-first :
    (caller : Caller) (v : Vma) (rest : Chain Vma)
    → caller.mm.mmap ≡ cons v rest
    → vma_at caller.mm.mmap 0 ≡ ok v
vma_at-first caller v rest e = rw e refl

-- A free list whose head points nowhere is followed all the same.
pub get_free_vmrg_area-wild :
    (caller : Caller) (size : ℕ) (v : Vma) (rest : Chain Vma)
    → caller.mm.mmap ≡ cons v rest
    → slt (to_int v.vm_id) 0 ≡ false
    → v.vm_freerg_list ≡ wild
    → get_free_vmrg_area caller 0 size ≡ fault
unfolding get_free_vmrg_area free_area_loop
get_free_vmrg_area-wild caller size v rest em en el =
    rw (get_vma_by_num-first caller.mm 0 v rest em en, em, el) refl
