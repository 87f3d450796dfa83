-- ===== src/Tests/Data.antt =====
-- The machines and processes of the examples.
use waguri.Base.{ℕ, refl, ◌+◌, ◌^◌, arith, [], ◌∷◌, replicate, length-replicate, Chain, null, cons}
use waguri.Pte.{fpn_of}
use waguri.Pte.Arith.{pgn_of_lem, page_present_lem, fpn_of_lem}
use waguri.Memphy.{Memphy}
use waguri.Memphy.Access.{IsValid, IsRandom}
use waguri.Memphy.PageCopy.{FrameIn}
use waguri.Mm.{Region, Vma, Mm, Caller}
use waguri.PageAlloc.Eviction.{CanSwap}
use waguri.PageAccess.Present.{InRam}
use waguri.PageAccess.Region.{HasRegion}

-- Two frames of random access memory, with the given free frames.
abbrev pub ram : Chain ℕ → Memphy
ram frees = record {
  storage = replicate 512 7;
  maxsz = 512;
  rdmflg = 1;
  cursor = 0;
  free_fp_list = frees;
  used_fp_list = null;
}

pub ram-IsValid : (frees : Chain ℕ) → IsValid (ram frees)
ram-IsValid frees = record { cells = length-replicate {A = ℕ} 512 7; small = omega arith }

pub ram-IsRandom : (frees : Chain ℕ) → IsRandom (ram frees)
ram-IsRandom frees = λ e. omega arith

abbrev pub first_region : Region
first_region = record { rg_start = 0; rg_end = 0 }

-- An area with the given free list.
abbrev pub area : Chain Region → Vma
area list = record { vm_id = 0; vm_start = 0; vm_end = 0; sbrk = 0; vm_freerg_list = list }

abbrev pub only_area : Vma
only_area = area (cons first_region null)

-- Page 0 is in frame 1.
abbrev pub entry_one : ℕ
entry_one = 2 ^ 31 + 1

abbrev pub space : Chain ℕ → Mm
space pages = record {
  pgd = entry_one ∷ 0 ∷ 0 ∷ 0 ∷ [];
  mmap = cons only_area null;
  symrgtbl = replicate 30 (record { rg_start = 0; rg_end = 100 });
  fifo_pgn = pages;
}

-- A process with the given free frames in memory and the given pages in the list.
abbrev pub process : Chain ℕ → Chain ℕ → Caller
process frees pages = record {
  mm = space pages;
  mram = ram frees;
  mswp = ram (cons 1 null) ∷ [];
  active_mswp = 0;
  active_mswp_id = 0;
}

pub process-HasRegion :
    (frees pages : Chain ℕ)
    → HasRegion (process frees pages) 3 (record { rg_start = 0; rg_end = 100 }) only_area null
process-HasRegion frees pages = record {
  area = refl;
  named = refl;
  listed = refl;
  below = omega arith;
}

pub entry_one-frame : FrameIn (ram null) (fpn_of entry_one)
entry_one-frame = rw (fpn_of_lem entry_one) (omega arith)

pub process-InRam : (frees pages : Chain ℕ) → InRam (process frees pages) 5 entry_one
process-InRam frees pages = record {
  entry = rw (pgn_of_lem 5) refl;
  present = rw (page_present_lem entry_one (omega arith)) refl;
  valid = ram-IsValid frees;
  random = ram-IsRandom frees;
  frame = entry_one-frame;
}

pub process-CanSwap :
    (frees pages : Chain ℕ)
    → CanSwap (process frees pages) (fpn_of entry_one) (ram (cons 1 null)) 1 null
process-CanSwap frees pages = record {
  listed = refl;
  few = omega arith;
  free = refl;
  ram_valid = ram-IsValid frees;
  ram_random = ram-IsRandom frees;
  ram_frame = entry_one-frame;
  swp_valid = ram-IsValid (cons 1 null);
  swp_random = ram-IsRandom (cons 1 null);
  swp_frame = omega arith;
}
