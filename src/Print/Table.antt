-- ===== src/Print/Table.antt =====
-- What `print_pgtbl` of src/mm.c prints.
use waguri.Base.{
  ℕ, zero, suc, ◌+◌, ◌-◌, ◌*◌, ◌%◌, ◌^◌, ◌≤◌, ◌<◌, ◌≡◌, ◌≢◌, refl, ap, ◌∙◌, arith, false, some,
  List, [], ◌∷◌, Bool-cases, inl, inr, ◌==◌, length, get_elem?, get_elem?-some, ok, Chain, cons,
}
use waguri.Cint.{slt, to_int}
use waguri.Pte.{max_pgn, pgn_of}
use waguri.Pte.Arith.{pgn_of_lem}
use waguri.Memphy.{failure}
use waguri.Mm.{Vma, Caller}
use waguri.Vm.Areas.{get_vma_by_num-first}
use waguri.Print.{Out, newline, table_head, entry, table_end, table_loop, table_rows, print_pgtbl}

-- The lines of the pages from `first` on, `count` of them
record Rows (pgd : List ℕ) (first count : ℕ) (outs : List Out) : Type 0 where
  size : length outs ≡ count
  row :
      (k pte : ℕ)
      → k < count
      → get_elem? pgd (first + k) ≡ some pte
      → get_elem? outs k ≡ some (entry ((first + k) * 4) pte)

table_loop-Rows :
    (pgd : List ℕ) (left pgit : ℕ)
    → pgit + left ≤ length pgd
    → (outs : List Out) × (table_loop left pgit pgd ≡ ok outs) × Rows pgd pgit left outs
unfolding table_loop
table_loop-Rows pgd zero pgit h =
    ([], refl, record { size = refl; row = λ k pte lt e. absurd (omega arith) })
table_loop-Rows pgd (suc left) pgit h =
    let (pte, at) = get_elem?-some pgd pgit (omega arith) in
    let (outs, ran, rows) = table_loop-Rows pgd left (pgit + 1) (omega arith) in
    (
      entry (pgit * 4) pte ∷ outs,
      rw (at, ran) refl,
      record { size = ap suc rows.size; row = row pte at outs rows },
    )
  where
    row :
        (pte : ℕ)
        → get_elem? pgd pgit ≡ some pte
        → (outs : List Out) → Rows pgd (pgit + 1) left outs
        → (k found : ℕ) → k < suc left
        → get_elem? pgd (pgit + k) ≡ some found
        → get_elem? (entry (pgit * 4) pte ∷ outs) k ≡ some (entry ((pgit + k) * 4) found)
    row pte at outs rows zero found lt e =
        let whole : pgit + 0 ≡ pgit = omega arith in
        let is : pte ≡ found = ground (arith, at, ap (get_elem? pgd) whole, e) in
        rw (is, whole) refl
    row pte at outs rows (suc k) found lt e =
        let moved : pgit + 1 + k ≡ pgit + suc k = omega arith in
        rows.row k found (omega arith) (ap (get_elem? pgd) moved ∙ e)
        ∙ ap (λ n. some (entry (n * 4) found)) moved

pgn_of-bound : (addr : ℕ) → pgn_of addr < max_pgn
pgn_of-bound addr = omega (arith, pgn_of_lem addr)

table_end-cases :
    (c : Caller) (v : Vma) (rest : Chain Vma) (end : ℕ)
    → c.mm.mmap ≡ cons v rest
    → slt (to_int v.vm_id) 0 ≡ false
    → v.vm_end < failure
    → (last : ℕ) × (table_end (some c) end ≡ ok last)
      × (end ≢ failure → last ≡ end)
      × (end ≡ failure → last ≡ v.vm_end)
unfolding table_end
table_end-cases c v rest end ea en small = elim (Bool-cases (end == failure)) [
  | inl e ↦
      let fits : v.vm_end % 2 ^ 32 ≡ v.vm_end = omega arith in
      (
        v.vm_end,
        rw (e, get_vma_by_num-first c.mm 0 v rest ea en, ea) (ap (λ n. ok n) fits),
        (λ ne. ground (arith, e, ne)),
        λ _. refl,
      )
  | inr e ↦ (end, rw e refl, (λ _. refl), λ is. ground (arith, e, is))
]

module _ (c : Caller) (v : Vma) (rest : Chain Vma) where
  -- For a page table of full size and an area 0, `print_pgtbl` prints the entry of every page from that of
  -- `start` up to that of `end`, which is left out, in their order, and reads nothing outside the table; with -1
  -- for `end` it goes up to the end of area 0.
  pub print_pgtbl-Rows :
      (start end : ℕ)
      → max_pgn ≤ length c.mm.pgd
      → c.mm.mmap ≡ cons v rest
      → slt (to_int v.vm_id) 0 ≡ false
      → v.vm_end < failure
      → (outs : List Out) × (last : ℕ) × (print_pgtbl (some c) start end
          ≡ ok (0, table_head start last ∷ newline ∷ outs))
        × (end ≢ failure → last ≡ end)
        × (end ≡ failure → last ≡ v.vm_end)
        × (length outs ≡ pgn_of last - pgn_of start)
        × ((k pte : ℕ)
            → k < pgn_of last - pgn_of start
            → get_elem? c.mm.pgd (pgn_of start + k) ≡ some pte
            → get_elem? outs k ≡ some (entry ((pgn_of start + k) * 4) pte))
  unfolding print_pgtbl table_rows
  print_pgtbl-Rows start end full ea en small =
      let (last, found, other, minus) = table_end-cases c v rest end ea en small in
      let (outs, ran, rows) =
        table_loop-Rows c.mm.pgd (pgn_of last - pgn_of start) (pgn_of start)
          (omega (arith, pgn_of-bound last, pgn_of-bound start)) in
      (outs, last, rw (found, ran) refl, other, minus, rows.size, rows.row)
