-- ===== src/PageAccess/Giveback.antt =====
-- What `free_pcb_memph` gives back to the devices.
use waguri.Base.{
  ℕ, zero, suc, ◌+◌, ◌≤◌, ◌<◌, ◌≡◌, refl, sym, ap, arith, some, List, [], ◌∷◌, ◌++◌, Chain, cons,
  get_elem?, set, set-set, set-same, get_elem?-append_left, get_elem?-set_self, lt_of_get_elem?, ok,
  length, length-set, get_elem?-some, Bool-cases, inl, inr, ◌∙◌, if◌then◌else◌,
}
use waguri.Pte.{page_present, swp_of, fpn_of, max_pgn}
use waguri.Memphy.{Memphy, put_freefp}
use waguri.Mm.{Caller, get_pte}
use waguri.PageAlloc.{get_mswp, set_mswp}
use waguri.PageAccess.{give_page, free_pages_loop, free_pcb_memph}

-- What a call leaves of the process and of the number of devices
abbrev pub SameSpace : Caller → Caller → Type 0
SameSpace caller caller' =
    (caller'.mm ≡ caller.mm)
    × (caller'.active_mswp ≡ caller.active_mswp)
    × (length caller'.mswp ≡ length caller.mswp)

give_page-total :
    (caller : Caller) (pte : ℕ)
    → caller.active_mswp < length caller.mswp
    → (caller' : Caller) × (give_page caller pte ≡ ok caller') × SameSpace caller caller'
unfolding give_page get_mswp set_mswp
give_page-total caller pte lt = elim (Bool-cases (page_present pte)) [
  | inl here ↦
      let (mp, e) = get_elem?-some caller.mswp caller.active_mswp lt in
      let mp' = (put_freefp mp (swp_of pte)).1 in
      (
        set_mswp caller caller.active_mswp mp',
        rw (here, e) refl,
        (refl, refl, length-set caller.mswp caller.active_mswp mp'),
      )
  | inr away ↦ (
    record caller { mram = (put_freefp caller.mram (fpn_of pte)).1 },
    rw away refl,
    (refl, refl, refl),
  )
]

free_pages_loop-total :
    (left pagenum : ℕ) (caller : Caller)
    → pagenum + left ≤ length caller.mm.pgd
    → caller.active_mswp < length caller.mswp
    → (caller' : Caller) × (free_pages_loop left pagenum caller ≡ ok caller')
      × SameSpace caller caller'
unfolding free_pages_loop get_pte
free_pages_loop-total zero pagenum caller all lt = (caller, refl, (refl, refl, refl))
free_pages_loop-total (suc left) pagenum caller all lt =
    let (pte, at) = get_elem?-some caller.mm.pgd pagenum (omega arith) in
    let (next, one, (space, active, devices)) = give_page-total caller pte lt in
    let (caller', run, (space', active', devices')) =
      free_pages_loop-total left (pagenum + 1) next (rw space (omega arith))
        (rw (active, devices) lt) in
    (caller', rw (at, one, run) refl, (space' ∙ space, active' ∙ active, devices' ∙ devices))

-- A process with a whole page table and a swap device in use can always be freed.
pub free_pcb_memph-total :
    (caller : Caller)
    → max_pgn ≤ length caller.mm.pgd
    → caller.active_mswp < length caller.mswp
    → (caller' : Caller) × (free_pcb_memph caller ≡ ok (0, caller')) × SameSpace caller caller'
unfolding free_pcb_memph
free_pcb_memph-total caller all lt =
    let (caller', run, same) = free_pages_loop-total max_pgn 0 caller all lt in
    (caller', rw run refl, same)

-- The free frames of the memory and the free frames of the swap device in use, once the entries are given back
abbrev pub free_frames : List ℕ → Chain ℕ → Chain ℕ
free_frames [] frees = frees
free_frames (pte ∷ ptes) frees =
    free_frames ptes (if page_present pte then frees else cons (fpn_of pte) frees)

abbrev pub free_slots : List ℕ → Chain ℕ → Chain ℕ
free_slots [] frees = frees
free_slots (pte ∷ ptes) frees =
    free_slots ptes (if page_present pte then cons (swp_of pte) frees else frees)

-- A caller whose memory and swap device in use have these free lists
abbrev pub with_frees : Caller → Memphy → Chain ℕ → Chain ℕ → Caller
with_frees caller mp frees slots = record caller {
  mram = record caller.mram { free_fp_list = frees };
  mswp = set caller.mswp caller.active_mswp (record mp { free_fp_list = slots });
}

module _ (caller : Caller) (mp : Memphy) (lt : caller.active_mswp < length caller.mswp) where
  give_page-frees :
      (pte : ℕ) (frees slots : Chain ℕ)
      → give_page (with_frees caller mp frees slots) pte
        ≡ ok (
            with_frees caller mp
              (if page_present pte then frees else cons (fpn_of pte) frees)
              (if page_present pte then cons (swp_of pte) slots else slots))
  unfolding give_page get_mswp set_mswp put_freefp
  give_page-frees pte frees slots = elim (Bool-cases (page_present pte)) [
    | inl here ↦
        rw
          (
            here,
            get_elem?-set_self caller.mswp caller.active_mswp (record mp { free_fp_list = slots })
                lt,
            set-set caller.mswp caller.active_mswp (record mp { free_fp_list = slots })
                (record mp { free_fp_list = cons (swp_of pte) slots }),
          )
          refl
    | inr away ↦ rw away refl
  ]

  free_pages_loop-frees :
      (ptes : List ℕ) (pagenum : ℕ) (frees slots : Chain ℕ)
      → ((i pte : ℕ)
          → get_elem? ptes i ≡ some pte
          → get_elem? caller.mm.pgd (pagenum + i) ≡ some pte)
      → free_pages_loop (length ptes) pagenum (with_frees caller mp frees slots)
        ≡ ok (with_frees caller mp (free_frames ptes frees) (free_slots ptes slots))
  unfolding free_pages_loop get_pte
  free_pages_loop-frees [] pagenum frees slots all = refl
  free_pages_loop-frees (pte ∷ ptes) pagenum frees slots all =
      let at : get_elem? caller.mm.pgd pagenum ≡ some pte =
        ap (get_elem? caller.mm.pgd) (omega arith) ∙ all 0 pte refl in
      let rest =
        free_pages_loop-frees ptes (pagenum + 1)
          (if page_present pte then frees else cons (fpn_of pte) frees)
          (if page_present pte then cons (swp_of pte) slots else slots)
          (λ i p e. ap (get_elem? caller.mm.pgd) (omega arith) ∙ all (suc i) p e) in
      rw (at, give_page-frees pte frees slots, rest) refl

-- A process whose page table starts with the entries of all its pages: for each that is not present, in their order, the
-- frame in the entry is put on the free list of the memory, for each that is present the swap offset in the entry is put
-- on that of the swap device in use, and nothing else changes, the page table not either.
pub free_pcb_memph-frees :
    (caller : Caller) (mp : Memphy) (ptes rest : List ℕ)
    → caller.mm.pgd ≡ ptes ++ rest
    → length ptes ≡ max_pgn
    → get_elem? caller.mswp caller.active_mswp ≡ some mp
    → free_pcb_memph caller
      ≡ ok (
        0,
        record caller {
          mram = record caller.mram { free_fp_list = free_frames ptes caller.mram.free_fp_list };
          mswp =
              set caller.mswp caller.active_mswp
                (record mp { free_fp_list = free_slots ptes mp.free_fp_list });
        },
      )
unfolding free_pcb_memph
free_pcb_memph-frees caller mp ptes rest table all e =
    let start : with_frees caller mp caller.mram.free_fp_list mp.free_fp_list ≡ caller =
      ap (λ mswp. record caller { mswp = mswp }) (set-same caller.mswp caller.active_mswp e) in
    let loop =
      free_pages_loop-frees caller mp (lt_of_get_elem? caller.mswp caller.active_mswp e) ptes 0
        caller.mram.free_fp_list mp.free_fp_list
        (λ i pte at.
          ap (get_elem? caller.mm.pgd) (omega arith)
          ∙ ap (λ l. get_elem? l i) table
          ∙ get_elem?-append_left ptes rest i (lt_of_get_elem? ptes i at)
          ∙ at) in
    let run : free_pages_loop max_pgn 0 caller
        ≡ ok (
            with_frees caller mp (free_frames ptes caller.mram.free_fp_list)
              (free_slots ptes mp.free_fp_list)) =
      ap (λ n. free_pages_loop n 0 caller) (sym all)
      ∙ ap (free_pages_loop (length ptes) 0) (sym start)
      ∙ loop in
    rw run refl
