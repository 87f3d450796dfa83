-- ===== src/PageAccess/Present.antt =====
-- Accesses to pages that are in memory.
use waguri.Base.{
  ℕ, ◌%◌, ◌<◌, ◌≡◌, refl, ap, arith, true, none, some, List, ok, set, get_elem?, get_elem?-set_self,
  length-set,
}
use waguri.Cint.{sext_char}
use waguri.Pte.{page_present, fpn_of, pgn_of, offst_of, phyaddr}
use waguri.Pte.Arith.{offst_of_lem, phyaddr_lem}
use waguri.Memphy.Access.{IsValid, IsRandom, storage-IsValid}
use waguri.Memphy.PageCopy.{FrameIn}
use waguri.Mm.{Caller}
use waguri.Mm.Mapping.{get_pte-ok}
use waguri.Sysmem.Calls.{sys_memmap-read, sys_memmap-write}
use waguri.PageAccess.{pg_getpage, pg_getval, pg_setval}

-- The page of `addr` is present, in a frame that lies in a valid random access RAM.
pub record InRam (caller : Caller) (addr pte : ℕ) : Type 0 where
  pub entry : get_elem? caller.mm.pgd (pgn_of addr) ≡ some pte
  pub present : page_present pte ≡ true
  pub valid : IsValid caller.mram
  pub random : IsRandom caller.mram
  pub frame : FrameIn caller.mram (fpn_of pte)

pg_getpage-present :
    {caller : Caller} {addr pte : ℕ}
    → InRam caller addr pte
    → pg_getpage caller (pgn_of addr) ≡ ok (0, some (fpn_of pte), caller)
unfolding pg_getpage
pg_getpage-present {caller} {addr} i = rw (get_pte-ok caller.mm (pgn_of addr) i.entry, i.present)

cell : ℕ → ℕ → ℕ
cell pte addr = phyaddr (fpn_of pte) (offst_of addr)

cell-lt :
    {caller : Caller} {addr pte : ℕ} → InRam caller addr pte → cell pte addr < caller.mram.maxsz
unfolding cell
cell-lt {caller} {addr} {pte} i =
    rw (phyaddr_lem (fpn_of pte) (offst_of addr), offst_of_lem addr)
      (omega (arith, i.frame, i.valid.small))

byte_back : (v : ℕ) → v < 256 → sext_char v % 256 ≡ v
byte_back v h = ground arith

-- A read of an address whose page is in memory gives the byte there and changes nothing.
pub pg_getval-InRam :
    (caller : Caller) (addr pte value : ℕ)
    → value < 256
    → InRam caller addr pte
    → get_elem? caller.mram.storage (phyaddr (fpn_of pte) (offst_of addr)) ≡ some value
    → pg_getval caller addr ≡ ok (0, some value, caller)
unfolding pg_getval cell
pg_getval-InRam caller addr pte value small i at =
    rw
      (
        pg_getpage-present i,
        sys_memmap-read caller (cell pte addr) value none i.valid i.random at (cell-lt i),
      )
      (ap (λ b. ok (0, some b, caller)) (byte_back value small))

-- A write to an address whose page is in memory succeeds, changes one cell of RAM and nothing
-- else, and a read of the address then gives the byte back and changes nothing.
pub pg_getval-pg_setval :
    (caller : Caller) (addr pte value : ℕ)
    → value < 256
    → InRam caller addr pte
    → (cells : List ℕ) × (pg_setval caller addr value
        ≡ ok (0, record caller { mram = record caller.mram { storage = cells } }))
      × (cells ≡ set caller.mram.storage (phyaddr (fpn_of pte) (offst_of addr)) value)
      × (pg_getval (record caller { mram = record caller.mram { storage = cells } }) addr
          ≡ ok (0, some value, record caller { mram = record caller.mram { storage = cells } }))
unfolding pg_setval pg_getval cell
pg_getval-pg_setval caller addr pte value small i = (
  set caller.mram.storage at value,
  rw
      (
        pg_getpage-present i,
        sys_memmap-write caller at (sext_char value) i.valid i.random (cell-lt i),
        byte_back value small,
      )
      refl,
  refl,
  rw
      (
        pg_getpage-present after,
        sys_memmap-read written at value none after.valid i.random
            (get_elem?-set_self caller.mram.storage at value
              (omega (arith, cell-lt i, i.valid.cells)))
            (cell-lt i),
      )
      (ap (λ b. ok (0, some b, written)) (byte_back value small)),
)
  where
    at : ℕ
    at = cell pte addr

    written : Caller
    written = record caller {
      mram = record caller.mram { storage = set caller.mram.storage at value };
    }

    after : InRam written addr pte
    after = record {
      entry = i.entry;
      present = i.present;
      valid = storage-IsValid i.valid (length-set caller.mram.storage at value);
      random = i.random;
      frame = i.frame;
    }
