-- ===== src/Pte/Arith.antt =====
-- The macros on a 32-bit entry as arithmetic on its fields.
use waguri.Base.{ℕ, ◌+◌, ◌*◌, ◌/◌, ◌%◌, ◌^◌, ◌<◌, bit_and, bit_or, ◌≡◌, refl, ap, ◌∙◌, arith, leb}
use waguri.Bits.{and_at, or_at, or-zero, or_one, and_one, and_low, and_high, or_apart, or_comm}
use waguri.Pte.{
  setbit, clrbit, setval, present_mask, swapped_mask, dirty_mask, fpn_mask, swptyp_mask,
  swpoff_mask, page_present, fpn_of, swp_of, pgn_of, offst_of, phyaddr,
}

pub setbit_present : (v : ℕ) → v < 2 ^ 32 → setbit v present_mask ≡ 2 ^ 31 + v % 2 ^ 31
unfolding setbit
setbit_present v h =
    or_at 31 v (2 ^ 31) (omega arith)
    ∙ rw (or_one (v / 2 ^ 31) (omega arith), or-zero (v % 2 ^ 31)) (omega arith)

or_one_low : (q : ℕ) → bit_or q 1 ≡ q / 2 * 2 + 1
or_one_low q = or_at 1 q 1 (omega arith) ∙ rw (or-zero (q / 2), or_one (q % 2) (omega arith)) refl

pub setbit_swapped : (v : ℕ) → setbit v swapped_mask ≡ v / 2 ^ 31 * 2 ^ 31 + 2 ^ 30 + v % 2 ^ 30
unfolding setbit
setbit_swapped v =
    or_at 30 v (2 ^ 30) (omega arith)
    ∙ rw (or_one_low (v / 2 ^ 30), or-zero (v % 2 ^ 30)) (omega arith)

pub clrbit_swapped : (v : ℕ) → v < 2 ^ 32 → clrbit v swapped_mask ≡ v / 2 ^ 31 * 2 ^ 31 + v % 2 ^ 30
unfolding clrbit
clrbit_swapped v h =
    and_at 30 v 0xbfff_ffff (omega arith)
    ∙ rw (and_high 1 (v / 2 ^ 30) 1 (omega arith), and_low 30 (v % 2 ^ 30) (omega arith))
        (omega (arith, and_one (v / 2 ^ 30 / 2) (omega arith)))

pub clrbit_dirty : (v : ℕ) → v < 2 ^ 32 → clrbit v dirty_mask ≡ v / 2 ^ 29 * 2 ^ 29 + v % 2 ^ 28
unfolding clrbit
clrbit_dirty v h =
    and_at 28 v 0xefff_ffff (omega arith)
    ∙ rw
        (
          and_high 1 (v / 2 ^ 28) 7 (omega arith),
          and_low 28 (v % 2 ^ 28) (omega arith),
          and_low 3 (v / 2 ^ 28 / 2) (omega arith),
        )
        (omega arith)

pub setval_fpn :
    (v fpn : ℕ)
    → v < 2 ^ 32
    → fpn < 2 ^ 32
    → setval v fpn fpn_mask 0 ≡ v / 2 ^ 13 * 2 ^ 13 + fpn % 2 ^ 13
unfolding setval
setval_fpn v fpn h hf =
    rw
      (
        and_high 13 v 0x7_ffff (omega arith),
        and_low 19 (v / 2 ^ 13) (omega arith),
        and_low 13 (fpn * 1 % 2 ^ 32) (omega arith),
      )
      (or_apart 13 (v / 2 ^ 13 % 2 ^ 19) (fpn * 1 % 2 ^ 32 % 2 ^ 13) (omega arith) ∙ omega arith)

pub setval_swptyp :
    (v t : ℕ) → v < 2 ^ 32 → t < 2 ^ 32 → setval v t swptyp_mask 0 ≡ v / 2 ^ 5 * 2 ^ 5 + t % 2 ^ 5
unfolding setval
setval_swptyp v t h ht =
    rw
      (
        and_high 5 v 0x7ff_ffff (omega arith),
        and_low 27 (v / 2 ^ 5) (omega arith),
        and_low 5 (t * 1 % 2 ^ 32) (omega arith),
      )
      (or_apart 5 (v / 2 ^ 5 % 2 ^ 27) (t * 1 % 2 ^ 32 % 2 ^ 5) (omega arith) ∙ omega arith)

-- The bits of an entry outside the swap offset.
keep_swpoff : (v : ℕ) → v < 2 ^ 32 → bit_and v 0xfc00_001f ≡ v / 2 ^ 26 * 2 ^ 26 + v % 2 ^ 5
keep_swpoff v h =
    and_at 5 v 0xfc00_001f (omega arith)
    ∙ rw
        (
          and_high 21 (v / 2 ^ 5) 0x3f (omega arith),
          and_low 6 (v / 2 ^ 5 / 2 ^ 21) (omega arith),
          and_low 5 (v % 2 ^ 5) (omega arith),
        )
        (omega arith)

swpoff_bits : (x : ℕ) → bit_and x swpoff_mask ≡ x / 2 ^ 5 % 2 ^ 21 * 2 ^ 5
swpoff_bits x =
    and_high 5 x 0x1f_ffff (omega arith)
    ∙ ap (λ t. t * 2 ^ 5) (and_low 21 (x / 2 ^ 5) (omega arith))

pub setval_swpoff :
    (v o : ℕ)
    → v < 2 ^ 32
    → setval v o swpoff_mask 5 ≡ v / 2 ^ 26 * 2 ^ 26 + o % 2 ^ 21 * 2 ^ 5 + v % 2 ^ 5
unfolding setval
setval_swpoff v o h =
    rw (keep_swpoff v h, swpoff_bits (o * 2 ^ 5 % 2 ^ 32))
      (or_at 26 (v / 2 ^ 26 * 2 ^ 26 + v % 2 ^ 5) (o * 2 ^ 5 % 2 ^ 32 / 2 ^ 5 % 2 ^ 21 * 2 ^ 5)
          (omega arith)
        ∙ rw (upper, lower) (omega arith))
  where
    kept : ℕ
    kept = v / 2 ^ 26 * 2 ^ 26 + v % 2 ^ 5

    put : ℕ
    put = o * 2 ^ 5 % 2 ^ 32 / 2 ^ 5 % 2 ^ 21 * 2 ^ 5

    upper : bit_or (kept / 2 ^ 26) (put / 2 ^ 26) ≡ v / 2 ^ 26
    upper = let e : put / 2 ^ 26 ≡ 0 = omega arith in rw (e, or-zero (kept / 2 ^ 26)) (omega arith)

    lower : bit_or (kept % 2 ^ 26) (put % 2 ^ 26) ≡ o % 2 ^ 21 * 2 ^ 5 + v % 2 ^ 5
    lower =
        let e : kept % 2 ^ 26 ≡ v % 2 ^ 5 = omega arith in
        let e' : put % 2 ^ 26 ≡ o % 2 ^ 21 * 2 ^ 5 = omega arith in
        rw (e, e')
          (or_comm (v % 2 ^ 5) (o % 2 ^ 21 * 2 ^ 5)
            ∙ or_apart 5 (o % 2 ^ 21) (v % 2 ^ 5) (omega arith))

pub page_present_lem : (v : ℕ) → v < 2 ^ 32 → page_present v ≡ leb (2 ^ 31) v
unfolding page_present
page_present_lem v h =
    ground (arith, and_high 31 v 1 (omega arith), and_one (v / 2 ^ 31) (omega arith))

pub fpn_of_lem : (v : ℕ) → fpn_of v ≡ v % 2 ^ 13
unfolding fpn_of
fpn_of_lem v = omega (arith, and_low 13 v (omega arith))

pub swp_of_lem : (v : ℕ) → swp_of v ≡ v / 2 ^ 5 % 2 ^ 21
unfolding swp_of
swp_of_lem v = omega (arith, swpoff_bits v)

pub pgn_of_lem : (a : ℕ) → pgn_of a ≡ a / 2 ^ 8 % 2 ^ 14
unfolding pgn_of
pgn_of_lem a =
    omega (arith, and_high 8 a 0x3fff (omega arith), and_low 14 (a / 2 ^ 8) (omega arith))

pub offst_of_lem : (a : ℕ) → offst_of a ≡ a % 2 ^ 8
unfolding offst_of
offst_of_lem a = omega (arith, and_low 8 a (omega arith))

pub phyaddr_lem : (fpn offst : ℕ) → phyaddr fpn offst ≡ (fpn * 2 ^ 8 + offst) % 2 ^ 32
unfolding phyaddr
phyaddr_lem fpn offst = refl
