-- ===== src/Tests/Process.antt =====
-- Examples for the memory of a process.
use waguri.Base.{
  ◌-◌, ◌++◌, length-replicate, ℕ, zero, suc, ◌≡◌, refl, ◌≤◌, ◌<◌, ◌+◌, arith, List, [], ◌∷◌,
  replicate, set, Chain, null, wild, cons, some, get_elem?, ok, fault,
}
use waguri.Cint.{sext_char}
use waguri.Pte.{pgn_of, fpn_of, swp_of, pte_set_swap, max_pgn}
use waguri.Pte.Arith.{pgn_of_lem, page_present_lem, swp_of_lem}
use waguri.Memphy.PageCopy.{Copied}
use waguri.Mm.{Region, Mm, Caller}
use waguri.Mm.Mapping.{Mapped}
use waguri.PageAlloc.{evict, vm_map_ram}
use waguri.PageAlloc.Taking.{taken, vm_map_ram-Mapped}
use waguri.PageAlloc.Eviction.{swapped, evict_oldest}
use waguri.Vm.Grow.{HasRoom, grown}
use waguri.Sysmem.{ScRegs, sysmem_io_write}
use waguri.Libmem.{alloc, liballoc, libfree}
use waguri.Libmem.Alloc.{Request, with_region, alloc-Mapped, alloc-exhausted}
use waguri.Libmem.Free.{with_list, libfree_cases}
use waguri.PageAccess.{free_pcb_memph, pg_getpage, pg_setval, libread, libwrite}
use waguri.PageAccess.Present.{pg_getval-pg_setval}
use waguri.PageAccess.Region.{libread-libwrite}
use waguri.PageAccess.SwapIn.{SameRam, pg_getpage-SameRam}
use waguri.PageAccess.Fetch.{fetched_entry, pg_getpage-swaps}
use waguri.PageAccess.Giveback.{free_frames, free_slots, free_pcb_memph-frees}
use waguri.Tests.Data.{
  ram, first_region, only_area, entry_one, space, process, process-HasRegion, process-InRam,
  process-CanSwap, entry_one-frame,
}

room : (frees pages : Chain ℕ) → HasRoom (process frees pages).mm 0 512 only_area null
room frees pages = record { first = refl; named = refl; small = omega arith; brk = omega arith }

request :
    (frees pages : Chain ℕ) → Request (process frees pages) 1 300 only_area null first_region null
request frees pages = record {
  room = room frees pages;
  wanted = omega arith;
  table = omega arith;
  head = refl;
  ordered = omega arith;
  fits = omega arith;
  tight = omega arith;
}

pages_fit : pgn_of 0 + 2 ≤ 4
pages_fit = omega (arith, pgn_of_lem 0)

abbrev two : List ℕ
two = 0 ∷ 1 ∷ []

abbrev two_free : Caller
two_free = process (cons 0 (cons 1 null)) null

alloc-Mapped_example :
    (mm' : Mm) × (alloc two_free 0 1 300
      ≡ ok (
        0,
        some 0,
        with_region
            (record (taken two_free two null) { mm = mm' })
            1
            (record { rg_start = 0; rg_end = 512 }),
      ))
    × Mapped (grown two_free 512 only_area null).mm mm' (pgn_of 0) (1 ∷ 0 ∷ [])
alloc-Mapped_example =
    alloc-Mapped two_free 1 300 only_area null first_region null two null
      (request (cons 0 (cons 1 null)) null) refl pages_fit refl

abbrev none_free : Caller
none_free = process null null

alloc-exhausted_example :
    alloc none_free 0 1 300
    ≡ ok (
      0,
      some 0,
      record none_free {
        mm = record none_free.mm {
          mmap = cons (record only_area { vm_end = 512; sbrk = 512 }) null;
          symrgtbl = set none_free.mm.symrgtbl 1 (record { rg_start = 0; rg_end = 512 });
        };
      },
    )
alloc-exhausted_example =
    alloc-exhausted none_free 1 300 only_area null first_region null (request null null) refl refl

vm_map_ram-Mapped_example :
    (mm' : Mm) × (vm_map_ram two_free 0 2 ≡ ok (0, record (taken two_free two null) { mm = mm' }))
    × Mapped two_free.mm mm' (pgn_of 0) (1 ∷ 0 ∷ [])
vm_map_ram-Mapped_example =
    vm_map_ram-Mapped two_free 0 two null (omega arith) (omega arith) pages_fit refl

abbrev one_page : Caller
one_page = process null (cons 0 null)

evict_oldest_example :
    (cells : List ℕ) × (evict one_page null
      ≡ ok (
        0,
        cons (fpn_of entry_one) wild,
        record (swapped one_page (ram (cons 1 null)) null cells) {
          mm = record one_page.mm {
            fifo_pgn = null;
            pgd = set one_page.mm.pgd 0 (pte_set_swap entry_one 0 1);
          };
        },
      ))
    × Copied one_page.mram.storage (ram (cons 1 null)).storage cells (fpn_of entry_one) 1 0
evict_oldest_example =
    evict_oldest one_page [] 0 entry_one (ram (cons 1 null)) 1 null refl refl
      (process-CanSwap null (cons 0 null))

abbrev three_pages : Mm
three_pages = space (cons 2 (cons 1 (cons 0 null)))

abbrev write_call : ScRegs
write_call = record { a1 = some sysmem_io_write; a2 = some 300; a3 = some 9 }

-- Page 1 fetched, with the cells that the swap device holds then.
abbrev after_fetch : List ℕ → Caller
after_fetch cells = record (swapped one_page (ram (cons 1 null)) null cells) {
  mm = record one_page.mm {
    fifo_pgn = cons 1 null;
    pgd = set (set one_page.mm.pgd 0 (pte_set_swap entry_one 0 1)) 1 (fetched_entry 0 entry_one);
  };
}

fetched :
    (cells : List ℕ) × (pg_getpage one_page 1
      ≡ ok (0, some (fpn_of (fetched_entry 0 entry_one)), after_fetch cells))
fetched =
    let (cells, cells', run, copied, copied') =
      pg_getpage-swaps one_page 1 0 [] 0 entry_one (ram (cons 1 null)) 1 null refl
        (rw (page_present_lem 0 (omega arith)) refl) refl refl (process-CanSwap null (cons 0 null))
        (rw (swp_of_lem 0) (omega arith)) entry_one-frame in
    (cells', run)

pg_getpage-swaps_example :
    (cells cells' : List ℕ) × (pg_getpage one_page 1
      ≡ ok (0, some (fpn_of (fetched_entry 0 entry_one)), after_fetch cells'))
    × Copied one_page.mram.storage (ram (cons 1 null)).storage cells (fpn_of entry_one) 1 0
    × Copied one_page.mram.storage cells cells' (swp_of 0) (fpn_of entry_one) 0
pg_getpage-swaps_example =
    pg_getpage-swaps one_page 1 0 [] 0 entry_one (ram (cons 1 null)) 1 null refl
      (rw (page_present_lem 0 (omega arith)) refl) refl refl (process-CanSwap null (cons 0 null))
      (rw (swp_of_lem 0) (omega arith)) entry_one-frame

pg_getpage-SameRam_example : SameRam one_page (after_fetch fetched.0)
pg_getpage-SameRam_example = pg_getpage-SameRam one_page 1 fetched.1

abbrev third : Region
third = record { rg_start = 0; rg_end = 100 }

libread-libwrite_example :
    (caller' : Caller) × (libwrite none_free 200 3 5 ≡ ok (0, caller'))
    × (libread caller' 3 5 ≡ ok (0, some (sext_char 200), caller'))
libread-libwrite_example =
    libread-libwrite none_free 3 5 200 entry_one third only_area null (omega arith)
      (process-HasRegion null null) (process-InRam null null)

stored :
    (cells : List ℕ) × (pg_setval none_free 5 200
      ≡ ok (0, record none_free { mram = record none_free.mram { storage = cells } }))
stored =
    let (cells, run, value, back) =
      pg_getval-pg_setval none_free 5 entry_one 200 (omega arith) (process-InRam null null) in
    (cells, run)

libfree_cases_example :
    (libfree none_free 3 ≡ ok (0, with_list none_free only_area null wild))
    × ((rgid' size : ℕ) → liballoc (with_list none_free only_area null wild) size rgid' ≡ fault)
libfree_cases_example =
    (libfree_cases none_free 3 third only_area null (omega arith) refl refl refl).1 (omega arith)

replicate-at : (n i a : ℕ) → i < n → get_elem? (replicate n a) i ≡ some a
replicate-at zero i a l = absurd (omega arith)
replicate-at (suc n) zero a l = refl
replicate-at (suc n) (suc i) a l = replicate-at n i a (omega arith)

-- A process with all its pages in memory.
-- The first page is present, and no other.
abbrev one_present : List ℕ
one_present = entry_one ∷ replicate (max_pgn - 1) 0

abbrev to_free : Caller
to_free = record none_free { mm = record none_free.mm { pgd = one_present ++ [] } }

free_pcb_memph-frees_example :
    free_pcb_memph to_free
    ≡ ok (
      0,
      record to_free {
        mram = record to_free.mram { free_fp_list = free_frames one_present null };
        mswp =
            set to_free.mswp 0
              (record (ram (cons 1 null)) { free_fp_list = free_slots one_present (cons 1 null) });
      },
    )
free_pcb_memph-frees_example =
    free_pcb_memph-frees to_free (ram (cons 1 null)) one_present [] refl
      (omega (arith, length-replicate {A = ℕ} (max_pgn - 1) 0)) refl
