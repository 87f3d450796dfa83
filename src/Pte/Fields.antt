-- ===== src/Pte/Fields.antt =====
-- What the entry setters of src/mm.c leave in each field of an entry.
use waguri.Base.{ℕ, ◌+◌, ◌*◌, ◌/◌, ◌%◌, ◌^◌, ◌≤◌, ◌<◌, ◌≡◌, ◌∙◌, arith, true, ◌≢◌}
use waguri.Pte.{
  setbit, clrbit, setval, present_mask, swapped_mask, dirty_mask, fpn_mask, swptyp_mask,
  swpoff_mask, page_present, fpn_of, swp_of, pgn_of, offst_of, phyaddr, init_pte, pte_set_swap,
  pte_set_fpn,
}
use waguri.Pte.Arith.{
  setbit_present, setbit_swapped, clrbit_swapped, clrbit_dirty, setval_fpn, setval_swptyp,
  setval_swpoff, page_present_lem, fpn_of_lem, swp_of_lem, pgn_of_lem, offst_of_lem, phyaddr_lem,
}

-- The swapped bit and the swap type, which no macro of the code reads back.
abbrev pub swapped_of : ℕ → ℕ
swapped_of pte = pte / 2 ^ 30 % 2

abbrev pub swptyp_of : ℕ → ℕ
swptyp_of pte = pte % 2 ^ 5

present_of_le : {v : ℕ} → 2 ^ 31 ≤ v → v < 2 ^ 32 → page_present v ≡ true
present_of_le {v} lo hi = rw (page_present_lem v hi) (ground arith)

pub pte_set_fpn_arith :
    (pte fpn : ℕ)
    → pte < 2 ^ 32
    → fpn < 2 ^ 32
    → pte_set_fpn pte fpn ≡ 2 ^ 31 + pte % 2 ^ 30 / 2 ^ 13 * 2 ^ 13 + fpn % 2 ^ 13
unfolding pte_set_fpn
pte_set_fpn_arith pte fpn h hf =
    rw (setbit_present pte h, clrbit_swapped (2 ^ 31 + pte % 2 ^ 31) (omega arith))
      (setval_fpn ((2 ^ 31 + pte % 2 ^ 31) / 2 ^ 31 * 2 ^ 31 + (2 ^ 31 + pte % 2 ^ 31) % 2 ^ 30) fpn
          (omega arith) hf
        ∙ omega arith)

pub pte_set_swap_arith :
    (pte swptyp swpoff : ℕ)
    → pte < 2 ^ 32
    → swptyp < 2 ^ 32
    → pte_set_swap pte swptyp swpoff
      ≡ 2 ^ 31 + 2 ^ 30 + pte % 2 ^ 30 / 2 ^ 26 * 2 ^ 26 + swpoff % 2 ^ 21 * 2 ^ 5 + swptyp % 2 ^ 5
unfolding pte_set_swap
pte_set_swap_arith pte swptyp swpoff h ht =
    rw
      (
        setbit_present pte h,
        setbit_swapped (2 ^ 31 + pte % 2 ^ 31),
        setval_swptyp marked swptyp (omega arith) ht,
      )
      (setval_swpoff (marked / 2 ^ 5 * 2 ^ 5 + swptyp % 2 ^ 5) swpoff (omega arith) ∙ omega arith)
  where
    marked : ℕ
    marked = (2 ^ 31 + pte % 2 ^ 31) / 2 ^ 31 * 2 ^ 31 + 2 ^ 30 + (2 ^ 31 + pte % 2 ^ 31) % 2 ^ 30

-- After `pte_set_fpn` the entry is present, is not marked swapped, and its frame number is the
-- low 13 bits of the argument; bits 13 to 29 are those from before.
pub pte_set_fpn_fields :
    (pte fpn : ℕ)
    → pte < 2 ^ 32
    → fpn < 2 ^ 32
    → let e = pte_set_fpn pte fpn in
      (page_present e ≡ true)
      × (swapped_of e ≡ 0)
      × (fpn_of e ≡ fpn % 2 ^ 13)
      × (e / 2 ^ 13 % 2 ^ 17 ≡ pte / 2 ^ 13 % 2 ^ 17)
      × (e < 2 ^ 32)
pte_set_fpn_fields pte fpn h hf =
    rw
      (
        pte_set_fpn_arith pte fpn h hf,
        fpn_of_lem (2 ^ 31 + pte % 2 ^ 30 / 2 ^ 13 * 2 ^ 13 + fpn % 2 ^ 13),
      )
      (
        present_of_le (omega arith) (omega arith),
        omega arith,
        omega arith,
        omega arith,
        omega arith,
      )

-- After `pte_set_swap` the swap offset, the swap type and the swapped bit are those given, and
-- bits 26 to 29 are those from before.
pub pte_set_swap_fields :
    (pte swptyp swpoff : ℕ)
    → pte < 2 ^ 32
    → swptyp < 2 ^ 32
    → let e = pte_set_swap pte swptyp swpoff in
      (swp_of e ≡ swpoff % 2 ^ 21)
      × (swptyp_of e ≡ swptyp % 2 ^ 5)
      × (swapped_of e ≡ 1)
      × (e / 2 ^ 26 % 2 ^ 4 ≡ pte / 2 ^ 26 % 2 ^ 4)
      × (e < 2 ^ 32)
pte_set_swap_fields pte swptyp swpoff h ht =
    rw
      (
        pte_set_swap_arith pte swptyp swpoff h ht,
        swp_of_lem (
            2 ^ 31
            + 2 ^ 30
            + pte % 2 ^ 30 / 2 ^ 26 * 2 ^ 26
            + swpoff % 2 ^ 21 * 2 ^ 5
            + swptyp % 2 ^ 5),
      )
      (omega arith, omega arith, omega arith, omega arith, omega arith)

-- An entry that `pte_set_swap` has written still passes the test for presence, and the frame
-- number that is read from it is made of the swap type and the low 8 bits of the swap offset.
pub pte_set_swap_looks_present :
    (pte swptyp swpoff : ℕ)
    → pte < 2 ^ 32
    → swptyp < 2 ^ 32
    → let e = pte_set_swap pte swptyp swpoff in
      (page_present e ≡ true) × (fpn_of e ≡ swpoff % 2 ^ 8 * 2 ^ 5 + swptyp % 2 ^ 5)
pte_set_swap_looks_present pte swptyp swpoff h ht =
    rw
      (
        pte_set_swap_arith pte swptyp swpoff h ht,
        fpn_of_lem (
            2 ^ 31
            + 2 ^ 30
            + pte % 2 ^ 30 / 2 ^ 26 * 2 ^ 26
            + swpoff % 2 ^ 21 * 2 ^ 5
            + swptyp % 2 ^ 5),
      )
      (present_of_le (omega arith) (omega arith), omega arith)

module _ (pte : ℕ) (h : pte < 2 ^ 32) where
  marked_present : setbit pte present_mask ≡ 2 ^ 31 + pte % 2 ^ 31
  marked_present = setbit_present pte h

  -- The entries that `init_pte` makes for a page in memory and for one in swap.
  online_arith :
      (fpn : ℕ)
      → fpn < 2 ^ 32
      → setval (clrbit (clrbit (setbit pte present_mask) swapped_mask) dirty_mask) fpn fpn_mask 0
        ≡ 2 ^ 31 + pte % 2 ^ 30 / 2 ^ 29 * 2 ^ 29 + pte % 2 ^ 28 / 2 ^ 13 * 2 ^ 13 + fpn % 2 ^ 13
  online_arith fpn hf =
      rw
        (
          marked_present,
          clrbit_swapped (2 ^ 31 + pte % 2 ^ 31) (omega arith),
          clrbit_dirty
              ((2 ^ 31 + pte % 2 ^ 31) / 2 ^ 31 * 2 ^ 31 + (2 ^ 31 + pte % 2 ^ 31) % 2 ^ 30)
              (omega arith),
        )
        (setval_fpn _ fpn (omega arith) hf ∙ omega arith)

  offline_arith :
      (swptyp swpoff : ℕ)
      → swptyp < 2 ^ 32
      → setval
          (setval
            (clrbit (setbit (setbit pte present_mask) swapped_mask) dirty_mask)
            swptyp
            swptyp_mask
            0)
          swpoff
          swpoff_mask
          5
        ≡ 2 ^ 31
          + 2 ^ 30
          + pte % 2 ^ 30 / 2 ^ 29 * 2 ^ 29
          + pte % 2 ^ 28 / 2 ^ 26 * 2 ^ 26
          + swpoff % 2 ^ 21 * 2 ^ 5
          + swptyp % 2 ^ 5
  offline_arith swptyp swpoff ht =
      rw
        (
          marked_present,
          setbit_swapped (2 ^ 31 + pte % 2 ^ 31),
          clrbit_dirty marked (omega arith),
          setval_swptyp (marked / 2 ^ 29 * 2 ^ 29 + marked % 2 ^ 28) swptyp (omega arith) ht,
        )
        (setval_swpoff
            ((marked / 2 ^ 29 * 2 ^ 29 + marked % 2 ^ 28) / 2 ^ 5 * 2 ^ 5 + swptyp % 2 ^ 5) swpoff
            (omega arith)
          ∙ omega arith)
    where
      marked : ℕ
      marked = (2 ^ 31 + pte % 2 ^ 31) / 2 ^ 31 * 2 ^ 31 + 2 ^ 30 + (2 ^ 31 + pte % 2 ^ 31) % 2 ^ 30

-- `init_pte` refuses frame 0 of a page that is online and leaves the entry alone when the page is
-- not present; otherwise the entry is present and holds the frame number, or the swap offset with
-- the swapped bit set, and bit 28 (dirty) is clear.
pub init_pte_branches :
    (pte pre fpn drt swp swptyp swpoff : ℕ)
    → pte < 2 ^ 32
    → fpn < 2 ^ 32
    → swptyp < 2 ^ 32
    → let (code, e) = init_pte pte pre fpn drt swp swptyp swpoff in
      (pre ≡ 0 → (code ≡ 0) × (e ≡ pte))
      × (pre ≢ 0 → swp ≡ 0 → fpn ≡ 0 → (code ≡ 0xffff_ffff) × (e ≡ pte))
      × (pre ≢ 0
          → swp ≡ 0
          → fpn ≢ 0
          → (code ≡ 0)
            × (page_present e ≡ true)
            × (swapped_of e ≡ 0)
            × (fpn_of e ≡ fpn % 2 ^ 13)
            × (e / 2 ^ 28 % 2 ≡ 0))
      × (pre ≢ 0
          → swp ≢ 0
          → (code ≡ 0)
            × (page_present e ≡ true)
            × (swapped_of e ≡ 1)
            × (swp_of e ≡ swpoff % 2 ^ 21)
            × (e / 2 ^ 28 % 2 ≡ 0))
unfolding init_pte
init_pte_branches pte pre fpn drt swp swptyp swpoff h hf ht = ground (
  arith,
  online_arith pte h fpn hf,
  offline_arith pte h swptyp swpoff ht,
  present_of_le {v = online} (omega arith) (omega arith),
  present_of_le {v = offline} (omega arith) (omega arith),
  fpn_of_lem online,
  swp_of_lem offline,
)
  where
    online : ℕ
    online = 2 ^ 31 + pte % 2 ^ 30 / 2 ^ 29 * 2 ^ 29 + pte % 2 ^ 28 / 2 ^ 13 * 2 ^ 13 + fpn % 2 ^ 13

    offline : ℕ
    offline =
        2 ^ 31
        + 2 ^ 30
        + pte % 2 ^ 30 / 2 ^ 29 * 2 ^ 29
        + pte % 2 ^ 28 / 2 ^ 26 * 2 ^ 26
        + swpoff % 2 ^ 21 * 2 ^ 5
        + swptyp % 2 ^ 5

-- An address below 2 ^ 22 is its page number and its offset put together, and both are in range.
pub phyaddr-pgn_of-offst_of :
    (addr : ℕ)
    → addr < 2 ^ 22
    → (phyaddr (pgn_of addr) (offst_of addr) ≡ addr)
      × (pgn_of addr < 2 ^ 14)
      × (offst_of addr < 2 ^ 8)
phyaddr-pgn_of-offst_of addr h =
    rw (pgn_of_lem addr, offst_of_lem addr, phyaddr_lem (addr / 2 ^ 8 % 2 ^ 14) (addr % 2 ^ 8))
      (omega arith, omega arith, omega arith)
