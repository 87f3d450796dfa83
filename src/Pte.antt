-- ===== src/Pte.antt =====
-- Page table entries: the macros of include/bitops.h and include/mm.h, and the functions of
-- src/mm.c that write an entry. An entry is a `uint32_t`; `int` arguments are 32-bit patterns.
-- A left shift keeps the low 32 bits.
pub mod Arith
pub mod Fields
use waguri.Base.{ℕ, ◌+◌, ◌-◌, ◌*◌, ◌/◌, ◌%◌, ◌^◌, bit_and, bit_or, Bool, not, ◌==◌, if◌then◌else◌}

-- `GENMASK(h, l)` with the 32 bits that `BITS_PER_LONG` has here
abbrev pub genmask : ℕ → ℕ → ℕ
genmask h l = bit_and (0xffff_ffff * 2 ^ l % 2 ^ 32) (0xffff_ffff / 2 ^ (32 - h - 1))

-- `BIT(nr)` and `~mask`
abbrev pub bit : ℕ → ℕ
bit nr = 2 ^ nr

abbrev pub bit_not : ℕ → ℕ
bit_not mask = 0xffff_ffff - mask

abbrev pub present_mask : ℕ
present_mask = bit 31

abbrev pub swapped_mask : ℕ
swapped_mask = bit 30

abbrev pub dirty_mask : ℕ
dirty_mask = bit 28

abbrev pub fpn_mask : ℕ
fpn_mask = genmask 12 0

abbrev pub swptyp_mask : ℕ
swptyp_mask = genmask 4 0

abbrev pub swpoff_mask : ℕ
swpoff_mask = genmask 25 5

-- `SETBIT`, `CLRBIT`, `SETVAL` and `GETVAL`
pub setbit : ℕ → ℕ → ℕ
setbit v mask = bit_or v mask

pub clrbit : ℕ → ℕ → ℕ
clrbit v mask = bit_and v (bit_not mask)

pub setval : ℕ → ℕ → ℕ → ℕ → ℕ
setval v value mask offst =
    bit_or (bit_and v (bit_not mask)) (bit_and (value * 2 ^ offst % 2 ^ 32) mask)

pub getval : ℕ → ℕ → ℕ → ℕ
getval v mask offst = bit_and v mask / 2 ^ offst

-- `PAGING_PAGE_PRESENT` as a condition
pub page_present : ℕ → Bool
page_present pte = not (bit_and pte present_mask == 0)

-- `PAGING_FPN` and `PAGING_PTE_FPN`
pub fpn_of : ℕ → ℕ
unfolding getval
fpn_of pte = getval pte fpn_mask 0

-- `PAGING_PTE_SWP` and `PAGING_SWP`
pub swp_of : ℕ → ℕ
unfolding getval
swp_of pte = getval pte swpoff_mask 5

-- `NBITS`, the position of the highest one
nbits2 : ℕ → ℕ
nbits2 n = if bit_and n 2 == 0 then 0 else 1

nbits4 : ℕ → ℕ
unfolding nbits2
nbits4 n = if bit_and n 0xc == 0 then nbits2 n else 2 + nbits2 (n / 4)

nbits8 : ℕ → ℕ
unfolding nbits4
nbits8 n = if bit_and n 0xf0 == 0 then nbits4 n else 4 + nbits4 (n / 16)

nbits16 : ℕ → ℕ
unfolding nbits8
nbits16 n = if bit_and n 0xff00 == 0 then nbits8 n else 8 + nbits8 (n / 256)

nbits32 : ℕ → ℕ
unfolding nbits16
nbits32 n = if bit_and n 0xffff_0000 == 0 then nbits16 n else 16 + nbits16 (n / 2 ^ 16)

pub nbits : ℕ → ℕ
unfolding nbits32
nbits n = if n == 0 then 0 else nbits32 n

abbrev pub pagesz : ℕ
pagesz = 256

abbrev pub max_pgn : ℕ
max_pgn = (2 ^ 22 + pagesz - 1) / pagesz

-- `PAGING_PGN` and `PAGING_OFFST` of an address
unfoldable pub pgn_of : ℕ → ℕ
unfolding getval nbits
pgn_of addr = getval addr (genmask 21 (nbits pagesz)) (nbits pagesz)

unfoldable pub offst_of : ℕ → ℕ
unfolding getval nbits
offst_of addr = getval addr (genmask (nbits pagesz - 1) 0) 0

-- `PAGING_PHYADDR`
unfoldable pub phyaddr : ℕ → ℕ → ℕ
unfolding nbits
phyaddr fpn offst = (fpn * 2 ^ nbits pagesz + offst) % 2 ^ 32

-- `init_pte`: the code returned, and the entry.
pub init_pte : ℕ → ℕ → ℕ → ℕ → ℕ → ℕ → ℕ → ℕ × ℕ
unfolding setbit clrbit setval
init_pte pte pre fpn drt swp swptyp swpoff =
    if pre == 0
    then (0, pte)
    else if swp == 0
    then (if fpn == 0 then (0xffff_ffff, pte) else (
      0,
      setval (clrbit (clrbit (setbit pte present_mask) swapped_mask) dirty_mask) fpn fpn_mask 0,
    ))
    else (
      0,
      setval
          (setval (clrbit (setbit (setbit pte present_mask) swapped_mask) dirty_mask) swptyp
            swptyp_mask 0)
          swpoff swpoff_mask 5,
    )

-- Both setters return 0; here they return the entry that they write.
pub pte_set_swap : ℕ → ℕ → ℕ → ℕ
unfolding setbit setval
pte_set_swap pte swptyp swpoff =
    setval (setval (setbit (setbit pte present_mask) swapped_mask) swptyp swptyp_mask 0) swpoff
      swpoff_mask 5

pub pte_set_fpn : ℕ → ℕ → ℕ
unfolding setbit clrbit setval
pte_set_fpn pte fpn = setval (clrbit (setbit pte present_mask) swapped_mask) fpn fpn_mask 0
