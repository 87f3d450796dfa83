-- ===== src/PageAccess/Fetch.antt =====
-- The whole run of `pg_getpage` for a page that is not in memory.
use waguri.Base.{
  ℕ, ◌≡◌, refl, ◌∙◌, arith, false, some, List, [], ◌∷◌, ◌++◌, ok, Chain, null, cons, chain, set,
  get_elem?, get_elem?-set_self, length-set, lt_of_get_elem?,
}
use waguri.Memphy.{Memphy}
use waguri.Memphy.Access.{IsValid, IsRandom}
use waguri.Memphy.Frames.{get_freefp-cons}
use waguri.Memphy.PageCopy.{FrameIn, Copied, swap_cp_page-Copied}
use waguri.Pte.{page_present, fpn_of, swp_of, pte_set_fpn, pte_set_swap, setbit, present_mask}
use waguri.Mm.{Mm, Caller, set_pte, enlist_pgn_node}
use waguri.Mm.Fifo.{find_victim_page-some}
use waguri.Mm.Mapping.{get_pte-ok}
use waguri.PageAlloc.{swap_out, get_mswp, set_mswp}
use waguri.PageAlloc.Eviction.{CanSwap, swapped, set-set}
use waguri.Vm.{mm_swap_page}
use waguri.Sysmem.{ScRegs, sys_memmap, sysmem_swp_op}
use waguri.PageAccess.{pg_getpage, swap_in}

-- The state when the cells of the active device are replaced.
abbrev refilled : Caller → Memphy → List ℕ → Caller
refilled caller mp cells = record caller {
  mswp = set caller.mswp caller.active_mswp (record mp { storage = cells });
}

swap_call-Copied :
    (caller : Caller) (mp : Memphy) (f s : ℕ)
    → get_elem? caller.mswp caller.active_mswp ≡ some mp
    → IsValid caller.mram
    → IsRandom caller.mram
    → FrameIn caller.mram f
    → IsValid mp
    → IsRandom mp
    → FrameIn mp s
    → let regs : ScRegs = record { a1 = some sysmem_swp_op; a2 = some f; a3 = some s } in
      (cells : List ℕ) × (sys_memmap caller regs ≡ ok (0, regs, refilled caller mp cells))
      × Copied caller.mram.storage mp.storage cells f s 0
unfolding sys_memmap mm_swap_page swap_out get_mswp set_mswp
swap_call-Copied caller mp f s e rv rr rf mv mr mf =
    let (cells, run, copied) = swap_cp_page-Copied caller.mram mp f s rv rr rf mv mr mf in
    (cells, rw (e, run) refl, copied)

-- The entry that `pg_getpage` writes for a page that gets the frame of `vicpte`.
abbrev pub fetched_entry : ℕ → ℕ → ℕ
fetched_entry pte vicpte = setbit (pte_set_fpn pte (fpn_of vicpte)) present_mask

-- A page that is not present gets the frame of the oldest listed page. The oldest page is copied to
-- a free frame `s` of the active swap device and its entry is set by `pte_set_swap`; then a second
-- copy writes, again from memory to the swap device, the memory frame whose number is the page's
-- place in swap to the swap frame whose number is the new frame. Both entries and the page list are
-- updated.
pub pg_getpage-swaps :
    (caller : Caller) (pgn pte : ℕ) (pgs : List ℕ) (oldest vicpte : ℕ) (swp : Memphy) (s : ℕ)
    (rest : Chain ℕ)
    → get_elem? caller.mm.pgd pgn ≡ some pte
    → page_present pte ≡ false
    → caller.mm.fifo_pgn ≡ chain (pgs ++ oldest ∷ []) null
    → get_elem? caller.mm.pgd oldest ≡ some vicpte
    → CanSwap caller (fpn_of vicpte) swp s rest
    → FrameIn caller.mram (swp_of pte)
    → FrameIn swp (fpn_of vicpte)
    → (cells cells' : List ℕ) × (pg_getpage caller pgn
        ≡ ok (
          0,
          some (fpn_of (fetched_entry pte vicpte)),
          record (swapped caller swp rest cells') {
            mm = record caller.mm {
              fifo_pgn = cons pgn (chain pgs null);
              pgd =
                  set
                    (set caller.mm.pgd oldest (pte_set_swap vicpte caller.active_mswp_id s))
                    pgn
                    (fetched_entry pte vicpte);
            };
          },
        ))
      × Copied caller.mram.storage swp.storage cells (fpn_of vicpte) s 0
      × Copied caller.mram.storage cells cells' (swp_of pte) (fpn_of vicpte) 0
unfolding pg_getpage swap_in get_mswp set_mswp set_pte enlist_pgn_node
pg_getpage-swaps caller pgn pte pgs oldest vicpte swp s rest here away pages victim c tgt back =
    let mm₁ : Mm = record caller.mm { fifo_pgn = chain pgs null } in
    let swp₁ : Memphy = record swp { free_fp_list = rest } in
    let lt = lt_of_get_elem? caller.mswp caller.active_mswp c.listed in
    let c₁ = set_mswp (record caller { mm = mm₁ }) caller.active_mswp swp₁ in
    let valid₁ : IsValid swp₁ = record { cells = c.swp_valid.cells; small = c.swp_valid.small } in
    let (cells, run₁, copied₁) =
      swap_call-Copied c₁ swp₁ (fpn_of vicpte) s
        (get_elem?-set_self caller.mswp caller.active_mswp swp₁ lt) c.ram_valid c.ram_random
        c.ram_frame valid₁ c.swp_random c.swp_frame in
    let swp₂ : Memphy = record swp₁ { storage = cells } in
    let valid₂ : IsValid swp₂ = record {
      cells = copied₁.size ∙ c.swp_valid.cells;
      small = c.swp_valid.small;
    } in
    let (cells', run₂, copied₂) =
      swap_call-Copied (refilled c₁ swp₁ cells) swp₂ (swp_of pte) (fpn_of vicpte)
        (get_elem?-set_self c₁.mswp caller.active_mswp swp₂
          (omega (arith, lt, length-set caller.mswp caller.active_mswp swp₁)))
        c.ram_valid c.ram_random tgt valid₂ c.swp_random back in
    (
      cells,
      cells',
      rw
          (
            get_pte-ok caller.mm pgn here,
            away,
            find_victim_page-some caller.mm pgs oldest pages,
            c.listed,
            get_freefp-cons swp c.free,
            get_pte-ok mm₁ oldest victim,
            run₁,
            run₂,
            set-set caller.mswp caller.active_mswp swp₁ swp₂,
            set-set caller.mswp caller.active_mswp swp₂ (record swp₂ { storage = cells' }),
          )
          refl,
      copied₁,
      copied₂,
    )
