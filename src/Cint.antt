-- ===== src/Cint.antt =====
-- C's `int` on a 32-bit pattern: a value below 2 ^ 31 is itself, any other stands for the value
-- less 2 ^ 32. A signed operation whose exact result does not fit is undefined.
use waguri.Base.{
  ℕ, ◌+◌, ◌-◌, ◌*◌, ◌/◌, ◌%◌, ◌^◌, ◌<◌, ◌≡◌, Bool, false, arith, ltb, leb, ◌==◌, if◌then◌else◌, Run,
  ok, fault,
}

abbrev pub is_neg : ℕ → Bool
is_neg a = leb (2 ^ 31) a

-- signed `a < b`
abbrev pub slt : ℕ → ℕ → Bool
slt a b = ltb ((a + 2 ^ 31) % 2 ^ 32) ((b + 2 ^ 31) % 2 ^ 32)

-- |a| and -a
abbrev pub mag : ℕ → ℕ
mag a = if is_neg a then 2 ^ 32 - a else a

abbrev pub neg32 : ℕ → ℕ
neg32 a = (2 ^ 32 - a) % 2 ^ 32

-- the pattern of -n
abbrev pub minus : ℕ → ℕ
minus n = 2 ^ 32 - n

unfoldable pub sadd : ℕ → ℕ → Run ℕ
sadd a b =
    let s = (a + b) % 2 ^ 32 in
    if is_neg a
    then (if is_neg b then (if is_neg s then ok s else fault) else ok s)
    else (if is_neg b then ok s else (if is_neg s then fault else ok s))

unfoldable pub smul : ℕ → ℕ → Run ℕ
smul a b =
    let m = mag a * mag b in
    if is_neg a
    then (if is_neg b
        then (if ltb m (2 ^ 31) then ok m else fault)
        else (if leb m (2 ^ 31) then ok (neg32 m) else fault))
    else (if is_neg b
        then (if leb m (2 ^ 31) then ok (neg32 m) else fault)
        else (if ltb m (2 ^ 31) then ok m else fault))

unfoldable pub sdiv : ℕ → ℕ → Run ℕ
sdiv a b =
    let q = mag a / mag b in
    if b == 0
    then fault
    else if is_neg a
    then (if is_neg b then (if ltb q (2 ^ 31) then ok q else fault) else ok (neg32 q))
    else (if is_neg b then ok (neg32 q) else ok q)

-- `int` to `unsigned long`: the sign is extended. `unsigned long` to `int`: the low word is kept.
abbrev pub sext64 : ℕ → ℕ
sext64 a = if is_neg a then a + (2 ^ 64 - 2 ^ 32) else a

abbrev pub to_int : ℕ → ℕ
to_int a = a % 2 ^ 32

-- `char` to `int` or to `uint32_t`: `char` is signed.
abbrev pub sext_char : ℕ → ℕ
sext_char a = if leb 128 a then a + (2 ^ 32 - 256) else a

-- Where the result fits, the operations are those on numbers.
pub sadd-ok : (a b : ℕ) → a + b < 2 ^ 31 → sadd a b ≡ ok (a + b)
unfolding sadd
sadd-ok a b h = ground arith

pub sdiv-ok : (a b : ℕ) → a < 2 ^ 31 → 0 < b → b < 2 ^ 31 → sdiv a b ≡ ok (a / b)
unfolding sdiv
sdiv-ok a b h h0 h1 = ground arith

pub smul-ok : (a b : ℕ) → a < 2 ^ 31 → b < 2 ^ 31 → a * b < 2 ^ 31 → smul a b ≡ ok (a * b)
unfolding smul
smul-ok a b ha hb h = ground arith

pub sadd-minus_one : (a : ℕ) → 0 < a → a < 2 ^ 31 → sadd a (minus 1) ≡ ok (a - 1)
unfolding sadd
sadd-minus_one a h h' = ground arith

pub is_neg-lt : (a : ℕ) → a < 2 ^ 31 → is_neg a ≡ false
is_neg-lt a h = ground arith
