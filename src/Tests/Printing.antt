-- ===== src/Tests/Printing.antt =====
-- Examples for what the program prints: a device of two words and a byte, and a page table.
use waguri.Base.{
  ℕ, ◌+◌, ◌-◌, ◌*◌, ◌<◌, ◌≡◌, ◌≢◌, refl, arith, null, some, List, [], ◌∷◌, ◌++◌, length,
  length-replicate, get_elem?, replicate, ok, cons,
}
use waguri.Pte.{max_pgn, pgn_of}
use waguri.Memphy.{Memphy, failure}
use waguri.Mm.{Vma, Caller}
use waguri.Print.{Out, newline, table_head, entry, print_pgtbl, memphy_dump}
use waguri.Print.Dump.{
  Word, bytes, zeros, AllLow, Stores, restore, memphy_dump-restore, memphy_dump-hides,
}
use waguri.Print.Table.{print_pgtbl-Rows}
use waguri.Tests.Data.{ram, area}

abbrev first : Word
first = record { b0 = 1; b1 = 0; b2 = 0; b3 = 127 }

abbrev hidden : Word
hidden = record { b0 = 1; b1 = 255; b2 = 0; b3 = 0 }

abbrev device : List ℕ → Memphy
device storage = record (ram null) { storage = storage; maxsz = 9 }

device-Stores : (v w : Word) → Stores (device (bytes (v ∷ w ∷ []) ++ 7 ∷ [])) (v ∷ w ∷ [])
device-Stores v w = record {
  tail = 7 ∷ [];
  storage = refl;
  short = omega arith;
  sized = refl;
  small = omega arith;
}

low : AllLow (first ∷ zeros ∷ [])
low = omega arith

memphy_dump-restore_example :
    (outs : List Out) × (memphy_dump (device (bytes (first ∷ zeros ∷ []) ++ 7 ∷ [])) ≡ ok (0, outs))
    × (restore 2 0 outs ≡ first ∷ zeros ∷ [])
memphy_dump-restore_example =
    memphy_dump-restore (device (bytes (first ∷ zeros ∷ []) ++ 7 ∷ [])) (first ∷ zeros ∷ [])
      (device-Stores first zeros) low

memphy_dump-hides_example :
    memphy_dump (device (bytes (first ∷ hidden ∷ []) ++ 7 ∷ []))
    ≡ memphy_dump (device (bytes (first ∷ zeros ∷ []) ++ 7 ∷ []))
memphy_dump-hides_example =
    memphy_dump-hides (device (bytes (first ∷ hidden ∷ []) ++ 7 ∷ []))
      (device (bytes (first ∷ zeros ∷ []) ++ 7 ∷ [])) (first ∷ []) [] hidden
      (device-Stores first hidden) (device-Stores first zeros) refl

-- A process whose area ends after two pages
abbrev two_pages : Vma
two_pages = record (area null) { vm_end = 512 }

abbrev table : List ℕ
table = replicate max_pgn 0

abbrev caller : Caller
caller = record {
  mm = record { pgd = table; mmap = cons two_pages null; symrgtbl = []; fifo_pgn = null };
  mram = ram null;
  mswp = [];
  active_mswp = 0;
  active_mswp_id = 0;
}

print_pgtbl-Rows_example :
    (outs : List Out) × (last : ℕ) × (print_pgtbl (some caller) 0 failure
      ≡ ok (0, table_head 0 last ∷ newline ∷ outs))
    × (failure ≢ failure → last ≡ failure)
    × (failure ≡ failure → last ≡ 512)
    × (length outs ≡ pgn_of last - pgn_of 0)
    × ((k pte : ℕ)
        → k < pgn_of last - pgn_of 0
        → get_elem? table (pgn_of 0 + k) ≡ some pte
        → get_elem? outs k ≡ some (entry ((pgn_of 0 + k) * 4) pte))
print_pgtbl-Rows_example =
    print_pgtbl-Rows caller two_pages null 0 failure
      (omega (arith, length-replicate {A = ℕ} max_pgn 0)) refl refl (omega arith)
