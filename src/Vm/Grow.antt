-- ===== src/Vm/Grow.antt =====
-- `inc_vma_limit` on the first area of a process.
use mathlib.Core.List.{reverse}
use waguri.Base.{
  ℕ, ◌+◌, ◌*◌, ◌/◌, ◌≤◌, ◌<◌, ◌^◌, ◌≡◌, refl, arith, false, List, ok, ◌>>=◌, Chain, null, cons,
  chain, length, if◌then◌else◌,
}
use waguri.Cint.{slt, sext64, to_int, sdiv-ok}
use waguri.Pte.{pgn_of}
use waguri.Memphy.{failure}
use waguri.Mm.{Vma, Mm, Caller}
use waguri.Mm.Mapping.{Mapped}
use waguri.PageAlloc.{vm_map_ram}
use waguri.PageAlloc.Taking.{taken, vm_map_ram-Mapped, vm_map_ram-exhausted}
use waguri.Vm.{add64, inc_vma_limit}
use waguri.Vm.Areas.{get_vma_by_num-first, page_alignsz-ok}

-- An area whose bounds leave room for `inc_sz` more bytes, first in the list and of the number
-- asked for.
pub record HasRoom (mm : Mm) (vmaid inc_sz : ℕ) (v : Vma) (rest : Chain Vma) : Type 0 where
  pub first : mm.mmap ≡ cons v rest
  pub named : slt (to_int v.vm_id) vmaid ≡ false
  pub small : v.vm_end + inc_sz + 512 < 2 ^ 31
  pub brk : v.sbrk + inc_sz < 2 ^ 31

-- The area with its limit and its break raised.
abbrev pub grown : Caller → ℕ → Vma → Chain Vma → Caller
grown caller inc_sz v rest = record caller {
  mm = record mm {
    mmap = cons (record v { vm_end = v.vm_end + inc_sz; sbrk = v.sbrk + inc_sz }) rest;
  };
}
  where
    open caller use {mm}

abbrev pub pages_of : ℕ → ℕ
pages_of sz = (sz + 255) / 256

add64-ok : (a b : ℕ) → a + b < 2 ^ 31 → add64 a (sext64 b) ≡ a + b
add64-ok a b h = ground arith

pub to_int-ok : (a : ℕ) → a < 2 ^ 31 → to_int a ≡ a
to_int-ok a h = omega arith

pages_back : (n : ℕ) → n * 256 / 256 ≡ n
pages_back n = omega arith

inc_vma_limit-reduced :
    (caller : Caller) (vmaid inc_sz : ℕ) (v : Vma) (rest : Chain Vma)
    → HasRoom caller.mm vmaid inc_sz v rest
    → inc_vma_limit caller vmaid inc_sz ≡ (
        vm_map_ram (grown caller inc_sz v rest) v.vm_end (pages_of inc_sz) >>= λ r.
        if slt r.0 0 then ok (failure, r.1) else ok (0, r.1))
unfolding inc_vma_limit
inc_vma_limit-reduced caller vmaid inc_sz v rest h =
    rw
      (
        page_alignsz-ok inc_sz (omega (arith, h.small)),
        sdiv-ok (pages_of inc_sz * 256) 256 (omega (arith, h.small)) (omega arith) (omega arith),
        get_vma_by_num-first caller.mm vmaid v rest h.first h.named,
        h.first,
      )
      (rw
        (
          add64-ok v.vm_end inc_sz (omega (arith, h.small)),
          add64-ok v.sbrk inc_sz h.brk,
          to_int-ok v.vm_end (omega (arith, h.small)),
          pages_back (pages_of inc_sz),
        )
        refl)

-- With a free frame for each page, `inc_vma_limit` succeeds: the first area's limit and break grow
-- by the increment, and the pages from the old limit on are mapped to the first frames of the
-- free list, the last of them first; these frames go over to the used list.
pub inc_vma_limit-Mapped :
    (caller : Caller) (vmaid inc_sz : ℕ) (v : Vma) (rest : Chain Vma) (fs : List ℕ) (left : Chain ℕ)
    → HasRoom caller.mm vmaid inc_sz v rest
    → length fs ≡ pages_of inc_sz
    → 0 < inc_sz
    → pgn_of v.vm_end + length fs ≤ length caller.mm.pgd
    → caller.mram.free_fp_list ≡ chain fs left
    → (mm' : Mm) × (inc_vma_limit caller vmaid inc_sz
        ≡ ok (0, record (taken caller fs left) { mm = mm' }))
      × Mapped (grown caller inc_sz v rest).mm mm' (pgn_of v.vm_end) (reverse fs)
inc_vma_limit-Mapped caller vmaid inc_sz v rest fs left h n h0 hp e =
    let (mm', r, m) =
      vm_map_ram-Mapped (grown caller inc_sz v rest) v.vm_end fs left (omega (arith, n))
        (omega (arith, n, h.small)) hp e in
    (mm', rw (inc_vma_limit-reduced caller vmaid inc_sz v rest h, ← n, r) refl, m)

-- With neither a free frame nor a page to evict `inc_vma_limit` gives -1, but the limit and the
-- break of the area stay raised.
pub inc_vma_limit-exhausted :
    (caller : Caller) (vmaid inc_sz : ℕ) (v : Vma) (rest : Chain Vma)
    → HasRoom caller.mm vmaid inc_sz v rest
    → 0 < inc_sz
    → caller.mram.free_fp_list ≡ null
    → caller.mm.fifo_pgn ≡ null
    → inc_vma_limit caller vmaid inc_sz ≡ ok (failure, grown caller inc_sz v rest)
inc_vma_limit-exhausted caller vmaid inc_sz v rest h h0 ef eq =
    rw
      (
        inc_vma_limit-reduced caller vmaid inc_sz v rest h,
        vm_map_ram-exhausted (grown caller inc_sz v rest) v.vm_end (pages_of inc_sz) (omega arith)
            (omega (arith, h.small)) ef eq,
      )
      refl
