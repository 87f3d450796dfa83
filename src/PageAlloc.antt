-- ===== src/PageAlloc.antt =====
-- Frames for new pages: `alloc_pages_range` and `vm_map_ram` of src/mm.c, with the eviction of a
-- victim page to a swap device.
pub mod Taking
pub mod Eviction
use waguri.Base.{
  ℕ, zero, suc, ◌+◌, ◌-◌, Bool, ◌&&◌, not, Option, none, some, List, ◌==◌, ltb, if◌then◌else◌,
  get_elem?, set, Run, ok, fault, ◌>>=◌, defined, Chain, null, wild, cons,
}
use waguri.Cint.{is_neg, slt, minus}
use waguri.Pte.{fpn_of, pte_set_swap}
use waguri.Memphy.{Memphy, failure, get_freefp, swap_cp_page}
use waguri.Mm.{
  Mm, Caller, Region, out_of_memory, max_mmswp, rounds, get_pte, set_pte, find_victim_page,
  vmap_page_range,
}

-- `caller->mswp + i`
unfoldable pub get_mswp : Caller → ℕ → Run Memphy
get_mswp caller i = defined (get_elem? caller.mswp i)

unfoldable pub set_mswp : Caller → ℕ → Memphy → Caller
set_mswp caller i mp = record caller { mswp = set caller.mswp i mp }

-- A frame of `caller->mram` is copied to frame `swpfpn` of swap device `i`.
unfoldable pub swap_out : Caller → ℕ → ℕ → ℕ → Run Caller
swap_out caller fpn i swpfpn = do
  mp ← get_mswp caller i
  (mram, mp') ← swap_cp_page caller.mram fpn mp swpfpn
  ok (set_mswp (record caller { mram = mram }) i mp')

-- The search of `alloc_pages_range` through all swap devices: where it stopped, the frame that
-- it took, if any, and the state.
pub find_swap : ℕ → ℕ → Caller → ℕ → Run (ℕ × Option ℕ × Caller)
unfolding get_mswp set_mswp swap_out
find_swap zero i caller fpn = ok (i, none, caller)
find_swap (suc left) i caller fpn = do
  mp ← get_mswp caller i
  (code, swpfpn, mp') ← get_freefp mp
  elim swpfpn [
    | none ↦ find_swap left (i + 1) caller fpn
    | some f ↦ do caller' ← swap_out (set_mswp caller i mp') fpn i f; ok (i, some f, caller')
  ]

-- Where the search for `active_mswp` in `mswp` stops.
abbrev pub active_index : Caller → ℕ
active_index caller = if ltb caller.active_mswp max_mmswp then caller.active_mswp else max_mmswp

-- The page of frame `fpn` is copied to a free frame of the active swap device, or else of the
-- first device that has one.
pub swap_somewhere : Caller → ℕ → Run (ℕ × Option ℕ × Caller)
unfolding find_swap
swap_somewhere caller fpn = do
  mp ← get_mswp caller caller.active_mswp
  (code, swpfpn, mp') ← get_freefp mp
  elim swpfpn [
    | none ↦ find_swap max_mmswp 0 caller fpn
    | some f ↦ do
      caller' ← swap_out (set_mswp caller caller.active_mswp mp') fpn caller.active_mswp f
      ok (active_index caller, some f, caller')
  ]

-- A node put before the frames taken so far; the first one has no successor set.
pub push_frame : ℕ → Chain ℕ → Run (Chain ℕ)
push_frame fpn null = ok (cons fpn wild)
push_frame fpn wild = fault
push_frame fpn (cons f rest) = ok (cons fpn (cons f rest))

-- The branch of `alloc_pages_range` for a device with no free frame: a code that is not 0 ends
-- the loop.
pub evict : Caller → Chain ℕ → Run (ℕ × Chain ℕ × Caller)
unfolding swap_somewhere push_frame
evict caller frm_lst = do
  (code, victim, mm) ← find_victim_page caller.mm
  elim victim [
    | none ↦ ok (failure, frm_lst, caller)
    | some pgn ↦ do
      pte ← get_pte mm pgn
      frm_lst' ← push_frame (fpn_of pte) frm_lst
      (i, swpfpn, caller') ← swap_somewhere (record caller { mm = mm }) (fpn_of pte)
      elim swpfpn [
        | none ↦ ok (out_of_memory, frm_lst', caller')
        | some f ↦
            if f == failure
            then ok (out_of_memory, frm_lst', caller')
            else ok
                (0, frm_lst', record caller' { mm = set_pte caller'.mm pgn (pte_set_swap pte i f) })
      ]
  ]

-- The branch for a free frame: the new node heads both the caller's list and `used_fp_list`.
pub take_frame : Caller → Memphy → ℕ → Chain ℕ × Caller
take_frame caller mram fpn =
    let taken = cons fpn mram.used_fp_list in
    (taken, record caller { mram = record mram { used_fp_list = taken } })

-- The loop of `alloc_pages_range` with `left` pages to go.
pub alloc_pages_loop : ℕ → Caller → Chain ℕ → Run (ℕ × Chain ℕ × Caller)
unfolding evict take_frame
alloc_pages_loop zero caller frm_lst = ok (0, frm_lst, caller)
alloc_pages_loop (suc left) caller frm_lst = do
  (code, fpn, mram) ← get_freefp caller.mram
  elim fpn [
    | some f ↦
        let (taken, caller') = take_frame caller mram f in alloc_pages_loop left caller' taken
    | none ↦ do
      (code', frm_lst', caller') ← evict caller frm_lst
      let rest = alloc_pages_loop left caller' frm_lst'
      if code' == 0 then rest else ok (code', frm_lst', caller')
  ]

-- `alloc_pages_range`: the code, `*frm_lst`, and the new state.
pub alloc_pages_range : Caller → ℕ → Run (ℕ × Chain ℕ × Caller)
unfolding alloc_pages_loop
alloc_pages_range caller req_pgnum = alloc_pages_loop (rounds req_pgnum) caller null

-- `vm_map_ram`; the area's bounds are not used, and the region returned is dropped by its caller.
pub vm_map_ram : Caller → ℕ → ℕ → Run (ℕ × Caller)
vm_map_ram caller mapstart incpgnum = do
  (ret_alloc, frm_lst, caller') ← alloc_pages_range caller incpgnum
  if slt ret_alloc 0 && not (ret_alloc == out_of_memory)
      then ok (failure, caller')
      else if ret_alloc == out_of_memory
      then ok (failure, caller')
      else do
        (ret_rg, caller'') ← vmap_page_range caller' mapstart incpgnum frm_lst
        ok (0, caller'')
