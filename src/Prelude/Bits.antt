-- ===== src/Prelude/Bits.antt =====
-- The masks of the source as arithmetic: `&` with a field, `|` of disjoint fields, single bits.
mod Steps
use Steps.{bit_and_step, bit_or_step}
use Prim.Native.Nat.{
  ℕ, zero, suc, ◌+◌, ◌-◌, ◌*◌, ◌/◌, ◌%◌, ◌^◌, ◌≤◌, ◌<◌, min, max, bit_and, bit_or, bit_or-bitwise,
}
use mathlib.Core.Path.{◌≡◌, refl, sym, ap, ap₂, ◌∙◌}
use mathlib.Core.Logic.{◌≢◌}
use native.Mathlib.Nat.{
  pow-suc, pow-succ', one-le-pow, div-div-eq-div-mul, mod-eq-sub-mul-div, mul-div-le,
}
use native.Mathlib.Omega.{arith}

bit_or-zero_upto : (n a : ℕ) → a ≤ n → bit_or a 0 ≡ a
bit_or-zero_upto n zero h = refl
bit_or-zero_upto zero (suc a) h = absurd (omega arith)
bit_or-zero_upto (suc n) (suc a) h =
    omega (arith, bit_or_step (suc a) 0, bit_or-zero_upto n (suc a / 2) (omega arith))

pub bit_or-zero : (a : ℕ) → bit_or a 0 ≡ a
bit_or-zero a = bit_or-zero_upto a a (omega arith)

pub zero-bit_or : (b : ℕ) → bit_or 0 b ≡ b
zero-bit_or b = bit_or-bitwise 0 b

bit_and-zero_upto : (n a : ℕ) → a ≤ n → bit_and a 0 ≡ 0
bit_and-zero_upto n zero h = refl
bit_and-zero_upto zero (suc a) h = absurd (omega arith)
bit_and-zero_upto (suc n) (suc a) h =
    omega (arith, bit_and_step (suc a) 0, bit_and-zero_upto n (suc a / 2) (omega arith))

pub bit_and-zero : (a : ℕ) → bit_and a 0 ≡ 0
bit_and-zero a = bit_and-zero_upto a a (omega arith)

double_pow : (q k : ℕ) → q * 2 ^ suc k ≡ 2 * (q * 2 ^ k)
double_pow q k = omega (arith, ap (λ (t : ℕ). q * t) (pow-suc 2 k))

halved : (q k : ℕ) → q * 2 ^ suc k / 2 ≡ q * 2 ^ k
halved q k = omega (arith, double_pow q k)

halves : (a k : ℕ) → a / 2 ^ suc k ≡ a / 2 / 2 ^ k
halves a k = ap (λ (t : ℕ). a / t) (pow-succ' 2 k) ∙ sym (div-div-eq-div-mul a 2 (2 ^ k))

half_mask : (k : ℕ) → (2 ^ suc k - 1) / 2 ≡ 2 ^ k - 1
half_mask k = omega (arith, pow-suc 2 k)

mod_double : (a k : ℕ) → a % 2 ^ suc k ≡ a / 2 % 2 ^ k * 2 + a % 2
mod_double a k = omega (
  arith,
  mod-eq-sub-mul-div a (2 ^ suc k),
  mod-eq-sub-mul-div (a / 2) (2 ^ k),
  mul-div-le (a / 2) (2 ^ k),
  ap (λ (t : ℕ). 2 ^ suc k * t) (halves a k),
  ap (λ (t : ℕ). t * (a / 2 / 2 ^ k)) (pow-suc 2 k),
)

-- `(q << k) | r` is a sum where `r` fits in `k` bits.
pub bit_or_add : (k q r : ℕ) → r < 2 ^ k → bit_or (q * 2 ^ k) r ≡ q * 2 ^ k + r
bit_or_add zero q r h = omega (arith, bit_or-zero (q * 1), ap (λ (t : ℕ). bit_or (q * 1) t) r_zero)
  where
    r_zero : r ≡ 0
    r_zero = omega arith
bit_or_add (suc k) q r h = omega (
  arith,
  bit_or_step (q * 2 ^ suc k) r,
  double_pow q k,
  pow-suc 2 k,
  ap (λ (t : ℕ). bit_or t (r / 2)) (halved q k),
  bit_or_add k q (r / 2) (omega (arith, pow-suc 2 k)),
)

-- A mask above `k` bits leaves the low bits alone.
pub bit_or_high :
    (k q c r : ℕ) → r < 2 ^ k → bit_or (q * 2 ^ k + r) (c * 2 ^ k) ≡ bit_or q c * 2 ^ k + r
bit_or_high zero q c r h = ground (arith, ap₂ (λ (t u : ℕ). bit_or t u) q_same c_same)
  where
    q_same : q * 2 ^ 0 + r ≡ q
    q_same = omega arith

    c_same : c * 2 ^ 0 ≡ c
    c_same = omega arith
bit_or_high (suc k) q c r h = omega (
  arith,
  bit_or_step (q * 2 ^ suc k + r) (c * 2 ^ suc k),
  double_pow q k,
  double_pow c k,
  double_pow (bit_or q c) k,
  pow-suc 2 k,
  ap₂ (λ (t u : ℕ). bit_or t u) half_q (halved c k),
  bit_or_high k q c (r / 2) (omega (arith, pow-suc 2 k)),
)
  where
    half_q : (q * 2 ^ suc k + r) / 2 ≡ q * 2 ^ k + r / 2
    half_q = omega (arith, double_pow q k)

pub bit_or-lt : (k a b : ℕ) → a < 2 ^ k → b < 2 ^ k → bit_or a b < 2 ^ k
bit_or-lt zero a b h g = omega (arith, ap₂ (λ (t u : ℕ). bit_or t u) a_zero b_zero, zero-bit_or 0)
  where
    a_zero : a ≡ 0
    a_zero = omega arith

    b_zero : b ≡ 0
    b_zero = omega arith
bit_or-lt (suc k) a b h g = omega (
  arith,
  bit_or_step a b,
  pow-suc 2 k,
  bit_or-lt k (a / 2) (b / 2) (omega (arith, pow-suc 2 k)) (omega (arith, pow-suc 2 k)),
)

-- The two lowest bits of a number that was masked in are set.
pub bit_or_three : (a b : ℕ) → b % 4 ≡ 3 → bit_or a b % 4 ≡ 3
bit_or_three a b h = omega (arith, bit_or_step a b, bit_or_step (a / 2) (b / 2))

pub three_bit_or : (a b : ℕ) → a % 4 ≡ 3 → bit_or a b % 4 ≡ 3
three_bit_or a b h = omega (arith, bit_or_step a b, bit_or_step (a / 2) (b / 2))

-- A mask of `k` low bits is the remainder.
pub bit_and_low : (k a : ℕ) → bit_and a (2 ^ k - 1) ≡ a % 2 ^ k
bit_and_low zero a = omega (arith, bit_and-zero a)
bit_and_low (suc k) a = omega (
  arith,
  bit_and_step a (2 ^ suc k - 1),
  one-le-pow k 2 (omega arith),
  pow-suc 2 k,
  ap (λ (t : ℕ). bit_and (a / 2) t) (half_mask k),
  bit_and_low k (a / 2),
  mod_double a k,
)

-- A mask of `m` bits above `k` cuts out the field.
pub bit_and_field : (m k a : ℕ) → bit_and a ((2 ^ m - 1) * 2 ^ k) ≡ a / 2 ^ k % 2 ^ m * 2 ^ k
bit_and_field m zero a = ground (arith, bit_and_low m a)
bit_and_field m (suc k) a = omega (
  arith,
  bit_and_step a ((2 ^ m - 1) * 2 ^ suc k),
  double_pow (2 ^ m - 1) k,
  ap (λ (t : ℕ). bit_and (a / 2) t) (halved (2 ^ m - 1) k),
  bit_and_field m k (a / 2),
  double_pow (a / 2 / 2 ^ k % 2 ^ m) k,
  ap (λ (t : ℕ). t % 2 ^ m * 2 ^ suc k) (halves a k),
)

-- Bit `k` of a number, as 0 or 1.
abbrev pub bit : ℕ → ℕ → ℕ
bit x zero = x % 2
bit x (suc k) = bit (x / 2) k

pub bit-lt : (x k : ℕ) → bit x k < 2
bit-lt x zero = omega arith
bit-lt x (suc k) = bit-lt (x / 2) k

pub bit-bit_and : (x y k : ℕ) → bit (bit_and x y) k ≡ min (bit x k) (bit y k)
bit-bit_and x y zero = omega (arith, bit_and_step x y)
bit-bit_and x y (suc k) = ap (λ (t : ℕ). bit t k) half ∙ bit-bit_and (x / 2) (y / 2) k
  where
    half : bit_and x y / 2 ≡ bit_and (x / 2) (y / 2)
    half = omega (arith, bit_and_step x y)

pub bit-bit_or : (x y k : ℕ) → bit (bit_or x y) k ≡ max (bit x k) (bit y k)
bit-bit_or x y zero = omega (arith, bit_or_step x y)
bit-bit_or x y (suc k) = ap (λ (t : ℕ). bit t k) half ∙ bit-bit_or (x / 2) (y / 2) k
  where
    half : bit_or x y / 2 ≡ bit_or (x / 2) (y / 2)
    half = omega (arith, bit_or_step x y)

-- `x & (1 << k)` is nonzero exactly when bit `k` is set.
pub bit_and_pow : (x k : ℕ) → bit_and x (2 ^ k) ≡ bit x k * 2 ^ k
bit_and_pow x zero = bit_and_low 1 x ∙ omega arith
bit_and_pow x (suc k) = omega (
  arith,
  bit_and_step x (2 ^ suc k),
  pow-suc 2 k,
  ap (λ (t : ℕ). bit_and (x / 2) t) half,
  bit_and_pow (x / 2) k,
  double_pow (bit (x / 2) k) k,
)
  where
    half : 2 ^ suc k / 2 ≡ 2 ^ k
    half = omega (arith, pow-suc 2 k)

pub bit-pow_self : (k : ℕ) → bit (2 ^ k) k ≡ 1
bit-pow_self zero = refl
bit-pow_self (suc k) = ap (λ (t : ℕ). bit t k) half ∙ bit-pow_self k
  where
    half : 2 ^ suc k / 2 ≡ 2 ^ k
    half = omega (arith, pow-suc 2 k)

bit-zero : (k : ℕ) → bit 0 k ≡ 0
bit-zero zero = refl
bit-zero (suc k) = bit-zero k

pub bit-pow_ne : (j k : ℕ) → j ≢ k → bit (2 ^ j) k ≡ 0
bit-pow_ne zero zero h = absurd (h refl)
bit-pow_ne zero (suc k) h = bit-zero k
bit-pow_ne (suc j) zero h = omega (arith, pow-suc 2 j)
bit-pow_ne (suc j) (suc k) h = ap (λ (t : ℕ). bit t k) half ∙ bit-pow_ne j k (λ e. h (ap suc e))
  where
    half : 2 ^ suc j / 2 ≡ 2 ^ j
    half = omega (arith, pow-suc 2 j)

pow_lt : (n k : ℕ) → k < n → 2 ^ k < 2 ^ n
pow_lt zero k h = absurd (omega arith)
pow_lt (suc n) zero h = omega (arith, pow-suc 2 n, one-le-pow n 2 (omega arith))
pow_lt (suc n) (suc k) h = omega (arith, pow-suc 2 n, pow-suc 2 k, pow_lt n k (omega arith))

half_complement : (n k : ℕ) → k < n → (2 ^ suc n - 1 - 2 ^ suc k) / 2 ≡ 2 ^ n - 1 - 2 ^ k
half_complement n k h = omega (arith, pow-suc 2 n, pow-suc 2 k, pow_lt n k h)

bit-ones : (n j : ℕ) → j < n → bit (2 ^ n - 1) j ≡ 1
bit-ones zero j h = absurd (omega arith)
bit-ones (suc n) zero h = omega (arith, pow-suc 2 n, one-le-pow n 2 (omega arith))
bit-ones (suc n) (suc j) h = ap (λ (t : ℕ). bit t j) (half_mask n) ∙ bit-ones n j (omega arith)

-- `~(1 << k)`, cut to `n` bits, clears bit `k` only.
pub bit-complement_self : (n k : ℕ) → k < n → bit (2 ^ n - 1 - 2 ^ k) k ≡ 0
bit-complement_self zero k h = absurd (omega arith)
bit-complement_self (suc n) zero h = omega (arith, pow-suc 2 n)
bit-complement_self (suc n) (suc k) h =
    ap (λ (t : ℕ). bit t k) (half_complement n k (omega arith))
    ∙ bit-complement_self n k (omega arith)

pub bit-complement_ne : (n k j : ℕ) → k < n → j < n → k ≢ j → bit (2 ^ n - 1 - 2 ^ k) j ≡ 1
bit-complement_ne zero k j h g ne = absurd (omega arith)
bit-complement_ne (suc n) zero zero h g ne = absurd (ne refl)
bit-complement_ne (suc n) zero (suc j) h g ne =
    let half : (2 ^ suc n - 1 - 2 ^ 0) / 2 ≡ 2 ^ n - 1 = omega (arith, pow-suc 2 n) in
    ap (λ (t : ℕ). bit t j) half ∙ bit-ones n j (omega arith)
bit-complement_ne (suc n) (suc k) zero h g ne =
    omega (arith, pow-suc 2 n, pow-suc 2 k, pow_lt n k (omega arith))
bit-complement_ne (suc n) (suc k) (suc j) h g ne =
    ap (λ (t : ℕ). bit t j) (half_complement n k (omega arith))
    ∙ bit-complement_ne n k j (omega arith) (omega arith) (λ e. ne (ap suc e))
