-- ===== src/Mem/Layers.antt =====
-- The parts of an address of src/mem.c.
use waguri.Base.{ℕ, ◌+◌, ◌*◌, ◌/◌, ◌%◌, ◌^◌, ◌<◌, ◌≡◌, arith}
use waguri.Bits.{and_low}
use waguri.Mem.{get_offset, get_first_lv, get_second_lv}

get_offset_lem : (a : ℕ) → get_offset a ≡ a % 2 ^ 10
unfolding get_offset
get_offset_lem a = omega (arith, and_low 10 a (omega arith))

get_second_lv_lem : (a : ℕ) → a < 2 ^ 32 → get_second_lv a ≡ a / 2 ^ 10 % 2 ^ 5
unfolding get_second_lv get_first_lv
get_second_lv_lem a h = omega arith

-- An address of 20 bits is its two layers of 5 bits and its offset of 10 bits put together, and each
-- of them is in its range.
pub layers_join :
    (addr : ℕ)
    → addr < 2 ^ 20
    → (get_first_lv addr * 2 ^ 15 + get_second_lv addr * 2 ^ 10 + get_offset addr ≡ addr)
      × (get_first_lv addr < 2 ^ 5)
      × (get_second_lv addr < 2 ^ 5)
      × (get_offset addr < 2 ^ 10)
unfolding get_first_lv
layers_join addr h =
    let o = get_offset_lem addr in
    let s = get_second_lv_lem addr (omega arith) in
    (omega (arith, o, s), omega arith, omega (arith, s), omega (arith, o))
