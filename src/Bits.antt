-- ===== src/Bits.antt =====
-- `&` and `|` on the native numbers, split at a binary position: what the macros on page table
-- entries need.
use Prim.Native.Nat.{bit_and-bitwise, bit_or-bitwise, digits}
use native.Mathlib.Nat.{pow-suc}
use waguri.Base.{
  ℕ, zero, suc, ◌+◌, ◌-◌, ◌*◌, ◌/◌, ◌%◌, ◌^◌, ◌≤◌, ◌<◌, min, max, bit_and, bit_or, ◌≡◌, refl, arith,
  ap, sym, ◌∙◌,
}

-- Fuel beyond the first number changes nothing in the library's recursion on digits.
module _ (z : ℕ → ℕ) (f : ℕ → ℕ → ℕ) where
  digits_enough : (n k a b : ℕ) → a ≤ n → a ≤ k → digits z f n a b ≡ digits z f k a b
  digits_enough zero zero zero b h h' = refl
  digits_enough zero (suc k) zero b h h' = refl
  digits_enough (suc n) zero zero b h h' = refl
  digits_enough (suc n) (suc k) zero b h h' = refl
  digits_enough zero k (suc a) b h h' = absurd (omega arith)
  digits_enough (suc n) zero (suc a) b h h' = absurd (omega arith)
  digits_enough (suc n) (suc k) (suc a) b h h' =
      ap (λ t. t * 2 + f (suc a % 2) (b % 2))
        (digits_enough n k (suc a / 2) (b / 2) (omega arith) (omega arith))

and_halves : (a b : ℕ) → bit_and a b ≡ bit_and (a / 2) (b / 2) * 2 + min (a % 2) (b % 2)
and_halves zero b = omega (arith, bit_and-bitwise 0 b, bit_and-bitwise 0 (b / 2))
and_halves (suc a) b = omega (
  arith,
  bit_and-bitwise (suc a) b,
  bit_and-bitwise (suc a / 2) (b / 2),
  digits_enough (λ _. 0) min a (suc a / 2) (suc a / 2) (b / 2) (omega arith) (omega arith),
)

or_halves : (a b : ℕ) → bit_or a b ≡ bit_or (a / 2) (b / 2) * 2 + max (a % 2) (b % 2)
or_halves zero b = omega (arith, bit_or-bitwise 0 b, bit_or-bitwise 0 (b / 2))
or_halves (suc a) b = omega (
  arith,
  bit_or-bitwise (suc a) b,
  bit_or-bitwise (suc a / 2) (b / 2),
  digits_enough (λ y. y) max a (suc a / 2) (suc a / 2) (b / 2) (omega arith) (omega arith),
)

double : (q k r : ℕ) → q * 2 ^ suc k + r ≡ 2 * (q * 2 ^ k) + r
double q k r = omega (arith, ap (λ (t : ℕ). q * t) (pow-suc 2 k))

halve : (q k r : ℕ) → (q * 2 ^ suc k + r) / 2 ≡ q * 2 ^ k + r / 2
halve q k r = omega (arith, double q k r)

parity : (q k r : ℕ) → (q * 2 ^ suc k + r) % 2 ≡ r % 2
parity q k r = omega (arith, double q k r)

-- Both operations work separately above and below position `k`.
pub and_split :
    (k a r b s : ℕ)
    → r < 2 ^ k
    → s < 2 ^ k
    → bit_and (a * 2 ^ k + r) (b * 2 ^ k + s) ≡ bit_and a b * 2 ^ k + bit_and r s
and_split zero a r b s hr hs =
    let er : r ≡ 0 = omega arith in let es : s ≡ 0 = omega arith in rw (er, es) (ground arith)
and_split (suc k) a r b s hr hs = ground (
  arith,
  and_halves (a * 2 ^ suc k + r) (b * 2 ^ suc k + s),
  and_halves r s,
  and_split k a (r / 2) b (s / 2) (omega (arith, pow-suc 2 k)) (omega (arith, pow-suc 2 k)),
  halve a k r,
  halve b k s,
  parity a k r,
  parity b k s,
  double (bit_and a b) k 0,
)

pub or_split :
    (k a r b s : ℕ)
    → r < 2 ^ k
    → s < 2 ^ k
    → bit_or (a * 2 ^ k + r) (b * 2 ^ k + s) ≡ bit_or a b * 2 ^ k + bit_or r s
or_split zero a r b s hr hs =
    let er : r ≡ 0 = omega arith in let es : s ≡ 0 = omega arith in rw (er, es) (ground arith)
or_split (suc k) a r b s hr hs = ground (
  arith,
  or_halves (a * 2 ^ suc k + r) (b * 2 ^ suc k + s),
  or_halves r s,
  or_split k a (r / 2) b (s / 2) (omega (arith, pow-suc 2 k)) (omega (arith, pow-suc 2 k)),
  halve a k r,
  halve b k s,
  parity a k r,
  parity b k s,
  double (bit_or a b) k 0,
)

module _ (k x y : ℕ) where
  -- The same with the numbers cut at `k`, where `k` is a numeral in use.
  pub and_at :
      0 < 2 ^ k
      → bit_and x y ≡ bit_and (x / 2 ^ k) (y / 2 ^ k) * 2 ^ k + bit_and (x % 2 ^ k) (y % 2 ^ k)
  and_at h = ground (
    arith,
    and_split k (x / 2 ^ k) (x % 2 ^ k) (y / 2 ^ k) (y % 2 ^ k) (omega arith) (omega arith),
  )

  pub or_at :
      0 < 2 ^ k
      → bit_or x y ≡ bit_or (x / 2 ^ k) (y / 2 ^ k) * 2 ^ k + bit_or (x % 2 ^ k) (y % 2 ^ k)
  or_at h = ground (
    arith,
    or_split k (x / 2 ^ k) (x % 2 ^ k) (y / 2 ^ k) (y % 2 ^ k) (omega arith) (omega arith),
  )

pub zero-and : (y : ℕ) → bit_and 0 y ≡ 0
zero-and y = bit_and-bitwise 0 y

pub zero-or : (y : ℕ) → bit_or 0 y ≡ y
zero-or y = bit_or-bitwise 0 y

and-zero_fuel : (n x : ℕ) → x ≤ n → bit_and x 0 ≡ 0
and-zero_fuel n zero h = refl
and-zero_fuel zero (suc x) h = absurd (omega arith)
and-zero_fuel (suc n) (suc x) h =
    omega (arith, and_halves (suc x) 0, and-zero_fuel n (suc x / 2) (omega arith))

pub and-zero : (x : ℕ) → bit_and x 0 ≡ 0
and-zero x = and-zero_fuel x x (omega arith)

or-zero_fuel : (n x : ℕ) → x ≤ n → bit_or x 0 ≡ x
or-zero_fuel n zero h = refl
or-zero_fuel zero (suc x) h = absurd (omega arith)
or-zero_fuel (suc n) (suc x) h =
    omega (arith, or_halves (suc x) 0, or-zero_fuel n (suc x / 2) (omega arith))

pub or-zero : (x : ℕ) → bit_or x 0 ≡ x
or-zero x = or-zero_fuel x x (omega arith)

-- A mask of ones below `k` keeps what fits below `k`.
pub and_ones : (k x : ℕ) → x < 2 ^ k → bit_and x (2 ^ k - 1) ≡ x
and_ones zero x h = let e : x ≡ 0 = omega arith in rw e (ground arith)
and_ones (suc k) x h = ground (
  arith,
  and_halves x (2 ^ suc k - 1),
  pow-suc 2 k,
  and_ones k (x / 2) (omega (arith, pow-suc 2 k)),
)

pub or_one : (q : ℕ) → q < 2 → bit_or q 1 ≡ 1
or_one zero h = refl
or_one (suc zero) h = refl
or_one (suc (suc q)) h = absurd (omega arith)

pub and_one : (q : ℕ) → q < 2 → bit_and q 1 ≡ q
and_one zero h = refl
and_one (suc zero) h = refl
and_one (suc (suc q)) h = absurd (omega arith)

module _ (k : ℕ) where
  -- A low mask is a remainder.
  pub and_low : (x : ℕ) → 0 < 2 ^ k → bit_and x (2 ^ k - 1) ≡ x % 2 ^ k
  and_low x h =
      let q : (2 ^ k - 1) / 2 ^ k ≡ 0 = grind arith in
      let r : (2 ^ k - 1) % 2 ^ k ≡ 2 ^ k - 1 = grind arith in
      and_at k x (2 ^ k - 1) h
      ∙ rw (q, r, and-zero (x / 2 ^ k), and_ones k (x % 2 ^ k) (omega arith)) (omega arith)

  -- A mask with nothing below `k`, and one with all of it.
  pub and_high : (x m : ℕ) → 0 < 2 ^ k → bit_and x (m * 2 ^ k) ≡ bit_and (x / 2 ^ k) m * 2 ^ k
  and_high x m h =
      ground (arith, and_split k (x / 2 ^ k) (x % 2 ^ k) m 0 (omega arith) h, and-zero (x % 2 ^ k))

  -- Fields that do not meet are added.
  pub or_apart : (a r : ℕ) → r < 2 ^ k → bit_or (a * 2 ^ k) r ≡ a * 2 ^ k + r
  or_apart a r h = ground (arith, or_split k a 0 0 r (omega arith) h, or-zero a, zero-or r)

or_comm_fuel : (n a b : ℕ) → a ≤ n → bit_or a b ≡ bit_or b a
or_comm_fuel n zero b h = zero-or b ∙ sym (or-zero b)
or_comm_fuel zero (suc a) b h = absurd (omega arith)
or_comm_fuel (suc n) (suc a) b h = omega (
  arith,
  or_halves (suc a) b,
  or_halves b (suc a),
  or_comm_fuel n (suc a / 2) (b / 2) (omega arith),
)

pub or_comm : (a b : ℕ) → bit_or a b ≡ bit_or b a
or_comm a b = or_comm_fuel a a b (omega arith)
