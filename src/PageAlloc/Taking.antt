-- ===== src/PageAlloc/Taking.antt =====
-- Pages for which there are free frames, and the case that nothing is left.
use mathlib.Core.List.{reverse, reverse-cons}
use waguri.Base.{
  ℕ, zero, suc, ◌+◌, ◌*◌, ◌≤◌, ◌<◌, ◌^◌, ◌≡◌, refl, sym, ap, ◌∙◌, arith, List, [], ◌∷◌, ok, Chain,
  null, cons, chain, chain-append, length, length-append,
}
use waguri.Cint.{is_neg-lt}
use waguri.Pte.{pgn_of}
use waguri.Memphy.{failure}
use waguri.Memphy.Frames.{get_freefp-cons, get_freefp-null}
use waguri.Mm.{Mm, Caller}
use waguri.Mm.Mapping.{Mapped, vmap_page_range-count}
use waguri.Mm.Fifo.{find_victim_page-null}
use waguri.PageAlloc.{alloc_pages_loop, alloc_pages_range, vm_map_ram, evict}

-- The state after the frames `fs` went from the head of the free list to that of the used list.
abbrev pub taken : Caller → List ℕ → Chain ℕ → Caller
taken caller fs rest = record caller {
  mram = record mram { free_fp_list = rest; used_fp_list = chain (reverse fs) mram.used_fp_list };
}
  where
    open caller use {mram}

length-reverse : (fs : List ℕ) → length (reverse fs) ≡ length fs
length-reverse [] = refl
length-reverse (f ∷ fs) =
    ap length (reverse-cons f fs)
    ∙ length-append (reverse fs) (f ∷ [])
    ∙ omega (arith, length-reverse fs)

chain-reverse-cons :
    (f : ℕ) (fs : List ℕ) (u : Chain ℕ) → chain (reverse (f ∷ fs)) u ≡ chain (reverse fs) (cons f u)
chain-reverse-cons f fs u =
    ap (λ l. chain l u) (reverse-cons f fs) ∙ chain-append (reverse fs) (f ∷ []) u

-- One frame taken, and then those that the hypothesis is about.
alloc_pages_loop-cons :
    (f : ℕ) (fs : List ℕ) (rest frm : Chain ℕ) (caller : Caller)
    → caller.mram.free_fp_list ≡ cons f (chain fs rest)
    → alloc_pages_loop
        (length fs)
        (taken caller (f ∷ []) (chain fs rest))
        (cons f caller.mram.used_fp_list)
      ≡ ok (
        0,
        chain (reverse fs) (cons f caller.mram.used_fp_list),
        taken (taken caller (f ∷ []) (chain fs rest)) fs rest,
      )
    → alloc_pages_loop (suc (length fs)) caller frm
      ≡ ok (0, chain (reverse (f ∷ fs)) caller.mram.used_fp_list, taken caller (f ∷ fs) rest)
unfolding alloc_pages_loop
alloc_pages_loop-cons f fs rest frm caller e ih = rw (get_freefp-cons caller.mram e) (
    ih
    ∙ ap
        (λ u. ok (
          0,
          u,
          record caller { mram = record caller.mram { free_fp_list = rest; used_fp_list = u } },
        ))
        (sym (chain-reverse-cons f fs caller.mram.used_fp_list)))

-- Once the caller's list is the used list, it stays so.
alloc_pages_loop-shared :
    (fs : List ℕ) (rest : Chain ℕ) (caller : Caller)
    → caller.mram.free_fp_list ≡ chain fs rest
    → alloc_pages_loop (length fs) caller caller.mram.used_fp_list
      ≡ ok (0, chain (reverse fs) caller.mram.used_fp_list, taken caller fs rest)
unfolding alloc_pages_loop
alloc_pages_loop-shared [] rest caller e = λ i. ok (
  0,
  caller.mram.used_fp_list,
  record caller { mram = record caller.mram { free_fp_list = e i } },
)
alloc_pages_loop-shared (f ∷ fs) rest caller e =
    alloc_pages_loop-cons f fs rest caller.mram.used_fp_list caller e
      (alloc_pages_loop-shared fs rest (taken caller (f ∷ []) (chain fs rest)) refl)

-- As many pages as there are frames at the head of the free list: the allocation succeeds, and
-- the frames move from the one list to the other, where the caller's list starts too.
pub alloc_pages_range-taken :
    (fs : List ℕ) (rest : Chain ℕ) (caller : Caller)
    → 0 < length fs
    → length fs < 2 ^ 31
    → caller.mram.free_fp_list ≡ chain fs rest
    → alloc_pages_range caller (length fs)
      ≡ ok (0, chain (reverse fs) caller.mram.used_fp_list, taken caller fs rest)
unfolding alloc_pages_range
alloc_pages_range-taken [] rest caller h h' e = absurd (omega arith)
alloc_pages_range-taken (f ∷ fs) rest caller h h' e = rw (is_neg-lt (length (f ∷ fs)) h') (
    alloc_pages_loop-cons f fs rest null caller e
      (alloc_pages_loop-shared fs rest (taken caller (f ∷ []) (chain fs rest)) refl))

-- With enough free frames `vm_map_ram` succeeds: the pages from the mapping address on get the
-- first frames of the free list, the last of them first; these frames leave the free list for the
-- used list, and nothing else of the devices changes.
pub vm_map_ram-Mapped :
    (caller : Caller) (mapstart : ℕ) (fs : List ℕ) (rest : Chain ℕ)
    → 0 < length fs
    → mapstart + length fs * 256 < 2 ^ 31
    → pgn_of mapstart + length fs ≤ length caller.mm.pgd
    → caller.mram.free_fp_list ≡ chain fs rest
    → (mm' : Mm) × (vm_map_ram caller mapstart (length fs)
        ≡ ok (0, record (taken caller fs rest) { mm = mm' }))
      × Mapped caller.mm mm' (pgn_of mapstart) (reverse fs)
unfolding vm_map_ram
vm_map_ram-Mapped caller mapstart fs rest h0 h1 h2 e =
    let (mm', r, m) =
      vmap_page_range-count (taken caller fs rest) mapstart (length fs) (reverse fs)
        caller.mram.used_fp_list (sym (length-reverse fs)) h0 h1 h2 in
    (mm', rw (alloc_pages_range-taken fs rest caller h0 (omega arith) e, r) refl, m)

evict-none :
    (caller : Caller) (frm_lst : Chain ℕ)
    → caller.mm.fifo_pgn ≡ null
    → evict caller frm_lst ≡ ok (failure, frm_lst, caller)
unfolding evict
evict-none caller frm_lst e = rw (find_victim_page-null caller.mm e)

-- With neither a free frame nor a page to evict, any number of pages is refused with -1, and
-- nothing changes.
pub vm_map_ram-exhausted :
    (caller : Caller) (mapstart incpgnum : ℕ)
    → 0 < incpgnum
    → incpgnum < 2 ^ 31
    → caller.mram.free_fp_list ≡ null
    → caller.mm.fifo_pgn ≡ null
    → vm_map_ram caller mapstart incpgnum ≡ ok (failure, caller)
unfolding vm_map_ram alloc_pages_range alloc_pages_loop
vm_map_ram-exhausted caller mapstart zero h h' ef eq = absurd (omega arith)
vm_map_ram-exhausted caller mapstart (suc n) h h' ef eq =
    rw (is_neg-lt (suc n) h', get_freefp-null caller.mram ef, evict-none caller null eq) refl
