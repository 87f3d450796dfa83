-- ===== src/PageAccess/SwapIn.antt =====
-- A page that is not in memory.
use waguri.Base.{
  ℕ, ◌≡◌, ◌∙◌, inl, inr, arith, true, false, Option, none, some, ◌==◌, Run, ok, defined, Bool,
  if◌then◌else◌, >>=-eq-ok, Bool-cases,
}
use waguri.Memphy.{failure, swap_cp_page, get_freefp}
use waguri.Memphy.PageCopy.{swap_cp_page-source}
use waguri.Pte.{page_present}
use waguri.Mm.{Mm, Caller, get_pte, find_victim_page}
use waguri.PageAlloc.{swap_out, get_mswp, set_mswp}
use waguri.Vm.{mm_swap_page}
use waguri.Sysmem.{ScRegs, sys_memmap, sysmem_swp_op}
use waguri.PageAccess.{pg_getpage, swap_in}

-- `c'` has the RAM cells of `c`.
abbrev pub SameRam : Caller → Caller → Type 0
SameRam c c' = c'.mram.storage ≡ c.mram.storage

swap_out-SameRam :
    (caller : Caller) (fpn i swpfpn : ℕ) {caller' : Caller}
    → swap_out caller fpn i swpfpn ≡ ok caller'
    → SameRam caller caller'
unfolding swap_out set_mswp
swap_out-SameRam caller fpn i swpfpn h =
    let (mp, e, h₁) = >>=-eq-ok (get_mswp caller i) _ h in
    let (r, e', h₂) = >>=-eq-ok (swap_cp_page caller.mram fpn mp swpfpn) _ h₁ in
    ground (arith, h₂, swap_cp_page-source caller.mram fpn mp swpfpn e')

swap_call-SameRam :
    (caller : Caller) (a2 a3 : Option ℕ) {code : ℕ} {regs : ScRegs} {caller' : Caller}
    → sys_memmap caller (record { a1 = some sysmem_swp_op; a2 = a2; a3 = a3 })
      ≡ ok (code, regs, caller')
    → SameRam caller caller'
unfolding sys_memmap mm_swap_page
swap_call-SameRam caller none a3 h = ground (arith, h)
swap_call-SameRam caller (some f) none h = ground (arith, h)
swap_call-SameRam caller (some f) (some s) h =
    let (c, e, h₁) = >>=-eq-ok (mm_swap_page caller f s) _ h in
    let (c', e', h₂) = >>=-eq-ok (swap_out caller f caller.active_mswp s) _ e in
    ground (arith, h₁, h₂, swap_out-SameRam caller f caller.active_mswp s e')

-- What `swap_in` gives.
abbrev Fetched : Type 0
Fetched = ℕ × ℕ × Caller

finish-SameRam :
    (b : Bool) (c : Caller) (mm : Mm) (p q : ℕ) {code pte' : ℕ} {caller' : Caller}
    → if◌then◌else◌ {A = Run Fetched} b (ok (0, p, record c { mm = mm })) (ok (failure, q, c))
      ≡ ok (code, pte', caller')
    → SameRam c caller'
finish-SameRam true c mm p q h = ground (arith, h)
finish-SameRam false c mm p q h = ground (arith, h)

fail-SameRam :
    (c : Caller) (q : ℕ) {code pte' : ℕ} {caller' : Caller}
    → ◌≡◌ {A = Run Fetched} (ok (failure, q, c)) (ok (code, pte', caller'))
    → SameRam c caller'
fail-SameRam c q h = ground (arith, h)

swap_in-SameRam :
    (caller : Caller) (pgn pte : ℕ) {code pte' : ℕ} {caller' : Caller}
    → swap_in caller pgn pte ≡ ok (code, pte', caller')
    → SameRam caller caller'
unfolding swap_in set_mswp
swap_in-SameRam caller pgn pte {code} {pte'} {caller'} h =
    let (victim, e₁, h₁) = >>=-eq-ok (find_victim_page caller.mm) _ h in
    let (mp, e₂, h₂) = >>=-eq-ok (get_mswp caller caller.active_mswp) _ h₁ in
    let (free, e₃, h₃) = >>=-eq-ok (get_freefp mp) _ h₂ in
    let (vicpgn, e₄, h₄) = >>=-eq-ok (defined victim.1) _ h₃ in
    let (vicpte, e₅, h₅) = >>=-eq-ok (get_pte victim.2 vicpgn) _ h₄ in
    let (out, e₆, h₆) = >>=-eq-ok (sys_memmap _ _) _ h₅ in
    let same = swap_call-SameRam _ _ _ e₆ in
    elim (Bool-cases (out.0 == 0)) [
      | inl fine ↦
          let (back, e₇, h₇) = >>=-eq-ok (sys_memmap _ _) _ (rw fine at h₆) in
          let (swpfpn, e₈, h₈) = >>=-eq-ok (defined free.1) _ h₇ in
          finish-SameRam (back.0 == 0) back.2 _ _ _ h₈ ∙ swap_call-SameRam _ _ _ e₇ ∙ same
      | inr failed ↦ fail-SameRam out.2 pte (rw failed at h₆) ∙ same
    ]

-- Fetching a page never writes to RAM: a page that was swapped out comes back with whatever its
-- new frame held before.
pub pg_getpage-SameRam :
    (caller : Caller) (pgn : ℕ) {code : ℕ} {fpn : Option ℕ} {caller' : Caller}
    → pg_getpage caller pgn ≡ ok (code, fpn, caller')
    → SameRam caller caller'
unfolding pg_getpage
pg_getpage-SameRam caller pgn h =
    let (pte, e, h₁) = >>=-eq-ok (get_pte caller.mm pgn) _ h in
    elim (Bool-cases (page_present pte)) [
      | inl here ↦ ground (arith, h₁, here)
      | inr away ↦
          let (r, e', h₂) = >>=-eq-ok (swap_in caller pgn pte) _ (rw away at h₁) in
          ground (arith, h₂, swap_in-SameRam caller pgn pte e')
    ]
