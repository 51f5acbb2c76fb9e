-- ===== src/Prelude/Bits.antt =====
-- The bits of a number, and what the native bit operations do to each of them.
use Prim.Native.Nat.{
  ℕ, zero, suc, ◌+◌, ◌-◌, ◌*◌, ◌/◌, ◌%◌, ◌^◌, ◌≤◌, ◌<◌, min, max, bit_and, bit_or, digits,
  bit_and-bitwise, bit_or-bitwise,
}
use mathlib.Core.Path.{◌≡◌, refl, ap, sym, subst, ◌∙◌}
use mathlib.Core.Bool.{Bool, false, not, ◌&&◌, ◌||◌}
use native.Mathlib.Nat.{
  pow-suc, one-le-pow, div-add-mod, mod-lt, mul-add-mod_self_left, mod-eq_of_lt,
}
use native.Mathlib.Omega.{arith}
use relis.Prelude.Tests.{◌==◌, if◌then◌else◌}

-- bit `k` of `w`
abbrev pub test_bit : ℕ → ℕ → Bool
test_bit w zero = w % 2 == 1
test_bit w (suc k) = test_bit (w / 2) k

-- the complement of a 64-bit word
abbrev pub not64 : ℕ → ℕ
not64 w = 2 ^ 64 - 1 - w

-- What the native operations compute does not depend on their fuel, as long as there is enough: so
-- that for the number itself may stand for that of its half.
same_digits :
    (f : ℕ → ℕ → ℕ) (z : ℕ → ℕ) (x y u v : ℕ)
    → (x ≤ u) × (x ≤ v)
    → digits z f u x y ≡ digits z f v x y
same_digits f z zero y (suc u) (suc v) enough = refl
same_digits f z zero y (suc u) zero enough = refl
same_digits f z zero y zero (suc v) enough = refl
same_digits f z zero y zero zero enough = refl
same_digits f z (suc x) y zero v enough = absurd (omega (arith, enough.0))
same_digits f z (suc x) y (suc u) zero enough = absurd (omega (arith, enough.1))
same_digits f z (suc x) y (suc u) (suc v) enough =
    let (low, high) = enough in
    omega
      (arith, ap (λ t. t * 2) (same_digits f z (suc x / 2) (y / 2) u v (omega arith, omega arith)))

pub bit_and_step : (x y : ℕ) → bit_and x y ≡ 2 * bit_and (x / 2) (y / 2) + min (x % 2) (y % 2)
bit_and_step zero y = omega (arith, bit_and-bitwise 0 y, bit_and-bitwise 0 (y / 2))
bit_and_step (suc x) y =
    let fewer =
      same_digits min (λ _. 0) (suc x / 2) (y / 2) x (suc x / 2) (omega arith, omega arith) in
    omega (arith, bit_and-bitwise (suc x) y, bit_and-bitwise (suc x / 2) (y / 2), fewer)

pub bit_or_step : (x y : ℕ) → bit_or x y ≡ 2 * bit_or (x / 2) (y / 2) + max (x % 2) (y % 2)
bit_or_step zero y = omega (arith, bit_or-bitwise 0 y, bit_or-bitwise 0 (y / 2))
bit_or_step (suc x) y =
    let fewer =
      same_digits max (λ v. v) (suc x / 2) (y / 2) x (suc x / 2) (omega arith, omega arith) in
    omega (arith, bit_or-bitwise (suc x) y, bit_or-bitwise (suc x / 2) (y / 2), fewer)

bit_and_half : (a b : ℕ) → bit_and a b / 2 ≡ bit_and (a / 2) (b / 2)
bit_and_half a b = omega (arith, bit_and_step a b)

bit_or_half : (a b : ℕ) → bit_or a b / 2 ≡ bit_or (a / 2) (b / 2)
bit_or_half a b = omega (arith, bit_or_step a b)

pub test_bit-and : (k a b : ℕ) → test_bit (bit_and a b) k ≡ (test_bit a k && test_bit b k)
test_bit-and zero a b = ground (arith, bit_and_step a b)
test_bit-and (suc k) a b = rw (bit_and_half a b) (test_bit-and k (a / 2) (b / 2))

pub test_bit-or : (k a b : ℕ) → test_bit (bit_or a b) k ≡ (test_bit a k || test_bit b k)
test_bit-or zero a b = ground (arith, bit_or_step a b)
test_bit-or (suc k) a b = rw (bit_or_half a b) (test_bit-or k (a / 2) (b / 2))

pow_half : (k : ℕ) → 2 ^ suc k / 2 ≡ 2 ^ k
pow_half k = omega (arith, pow-suc 2 k)

pub test_bit-zero : (k : ℕ) → test_bit 0 k ≡ false
test_bit-zero zero = refl
test_bit-zero (suc k) = test_bit-zero k

pub test_bit-pow : (k j : ℕ) → test_bit (2 ^ k) j ≡ (k == j)
test_bit-pow zero zero = refl
test_bit-pow zero (suc j) = ground (arith, test_bit-zero j)
test_bit-pow (suc k) zero = ground (arith, pow-suc 2 k)
test_bit-pow (suc k) (suc j) = rw (pow_half k) (ground (arith, test_bit-pow k j))

test_bit-complement :
    (n k w : ℕ) → w < 2 ^ n → k < n → test_bit (2 ^ n - 1 - w) k ≡ not (test_bit w k)
test_bit-complement zero k w h p = absurd (omega arith)
test_bit-complement (suc n) zero w h p = ground (arith, pow-suc 2 n)
test_bit-complement (suc n) (suc k) w h p =
    let half : (2 ^ suc n - 1 - w) / 2 ≡ 2 ^ n - 1 - w / 2 = omega (arith, pow-suc 2 n) in
    rw half (test_bit-complement n k (w / 2) (omega (arith, pow-suc 2 n)) (omega arith))

pub test_bit-not64 : (k w : ℕ) → w < 2 ^ 64 → k < 64 → test_bit (not64 w) k ≡ not (test_bit w k)
test_bit-not64 k w = test_bit-complement 64 k w

no_mask : (rounds x : ℕ) → x < rounds → bit_and x 0 ≡ 0
no_mask zero x low = absurd (omega arith)
no_mask (suc rounds) zero low = refl
no_mask (suc rounds) (suc x) low =
    let halved = no_mask rounds (suc x / 2) (omega arith) in
    omega (arith, halved, bit_and_step (suc x) 0)

pub bit_and-zero : (a : ℕ) → bit_and a 0 ≡ 0
bit_and-zero a = no_mask (suc a) a (omega arith)

-- Testing one bit by a mask.
pub bit_and-pow : (k w : ℕ) → bit_and w (2 ^ k) ≡ (if test_bit w k then 2 ^ k else 0)
bit_and-pow zero w = ground (arith, bit_and_step w 1, bit_and-zero (w / 2))
bit_and-pow (suc k) w =
    ground (arith, bit_and_step w (2 ^ suc k), pow_half k, pow-suc 2 k, bit_and-pow k (w / 2))

pub bit_or-lt : (n a b : ℕ) → a < 2 ^ n → b < 2 ^ n → bit_or a b < 2 ^ n
bit_or-lt zero zero zero p q = omega arith
bit_or-lt zero zero (suc b) p q = absurd (omega arith)
bit_or-lt zero (suc a) b p q = absurd (omega arith)
bit_or-lt (suc n) a b p q = omega (
  arith,
  pow-suc 2 n,
  bit_or_step a b,
  bit_or-lt n (a / 2) (b / 2) (omega (arith, pow-suc 2 n)) (omega (arith, pow-suc 2 n)),
)

pub bit_and-le : (n a b : ℕ) → a < 2 ^ n → bit_and a b ≤ a
bit_and-le zero zero b p = omega (arith, bit_and-bitwise 0 b)
bit_and-le zero (suc a) b p = absurd (omega arith)
bit_and-le (suc n) a b p =
    omega (arith, bit_and_step a b, bit_and-le n (a / 2) (b / 2) (omega (arith, pow-suc 2 n)))

pub pow-lt : (k n : ℕ) → k < n → 2 ^ k < 2 ^ n
pow-lt k zero h = absurd (omega arith)
pow-lt zero (suc n) h = omega (arith, one-le-pow n 2, pow-suc 2 n)
pow-lt (suc k) (suc n) h = omega (arith, pow-suc 2 k, pow-suc 2 n, pow-lt k n (omega arith))

pub bit_and-ones : (n a : ℕ) → a < 2 ^ n → bit_and a (2 ^ n - 1) ≡ a
bit_and-ones zero zero h = bit_and-bitwise 0 0
bit_and-ones zero (suc a) h = absurd (omega arith)
bit_and-ones (suc n) a h =
    let half : (2 ^ suc n - 1) / 2 ≡ 2 ^ n - 1 = omega (arith, pow-suc 2 n) in
    let ih = bit_and-ones n (a / 2) (omega (arith, pow-suc 2 n)) in
    ground (arith, bit_and_step a (2 ^ suc n - 1), half, ih, pow-suc 2 n, one-le-pow n 2)

double : (m k : ℕ) → 2 * (m * 2 ^ k) ≡ m * 2 ^ suc k
double m k = let power = pow-suc 2 k in omega (arith, ap (λ (p : ℕ). m * p) power)

-- A mask of whole high digits keeps the part above bit `k`.
pub bit_and_high :
    (k q r m : ℕ) → r < 2 ^ k → bit_and (q * 2 ^ k + r) (m * 2 ^ k) ≡ bit_and q m * 2 ^ k
bit_and_high zero q r m h =
    let e : q * 2 ^ 0 + r ≡ q = omega arith in
    let f : m * 2 ^ 0 ≡ m = omega arith in rw (e, f) (omega arith)
bit_and_high (suc k) q r m h =
    let e : (q * 2 ^ suc k + r) / 2 ≡ q * 2 ^ k + r / 2 = omega (arith, double q k) in
    let f : m * 2 ^ suc k / 2 ≡ m * 2 ^ k = omega (arith, double m k) in
    let ih = bit_and_high k q (r / 2) m (omega (arith, pow-suc 2 k)) in
    ground (
      arith,
      bit_and_step (q * 2 ^ suc k + r) (m * 2 ^ suc k),
      e,
      f,
      ih,
      double m k,
      double (bit_and q m) k,
    )

-- Clearing the low `k` bits of a word.
pub bit_and_align :
    (k n a : ℕ) → a < 2 ^ n * 2 ^ k → bit_and a ((2 ^ n - 1) * 2 ^ k) ≡ a / 2 ^ k * 2 ^ k
bit_and_align k n a h =
    let pos = one-le-pow k 2 (omega arith) in
    let q : a / 2 ^ k < 2 ^ n = grind arith in
    let e : a ≡ a / 2 ^ k * 2 ^ k + a % 2 ^ k = grind arith in
    subst (λ (t : ℕ). bit_and t ((2 ^ n - 1) * 2 ^ k) ≡ a / 2 ^ k * 2 ^ k) (sym e)
      (bit_and_high k (a / 2 ^ k) (a % 2 ^ k) (2 ^ n - 1) (grind arith)
        ∙ ap (λ t. t * 2 ^ k) (bit_and-ones n (a / 2 ^ k) q))

halves : (w q m r : ℕ) → m * q + r ≡ w / 2 → w ≡ 2 * m * q + (2 * r + w % 2)
halves w q m r e = grind (arith, e)

-- The remainder by an even number, digit by digit.
mod_double : (w m : ℕ) → 0 < m → w % (2 * m) ≡ 2 * (w / 2 % m) + w % 2
mod_double w m pos =
    let e : w ≡ 2 * m * (w / 2 / m) + (2 * (w / 2 % m) + w % 2) =
      halves w (w / 2 / m) m (w / 2 % m) (div-add-mod (w / 2) m) in
    let low : 2 * (w / 2 % m) + w % 2 < 2 * m = omega (arith, mod-lt (w / 2) pos) in
    ap (λ (v : ℕ). v % (2 * m)) e
    ∙ mul-add-mod_self_left (2 * m) (w / 2 / m) (2 * (w / 2 % m) + w % 2)
    ∙ mod-eq_of_lt low

-- A mask of `n` ones takes the remainder.
pub bit_and_mask : (n w : ℕ) → bit_and w (2 ^ n - 1) ≡ w % 2 ^ n
bit_and_mask zero w = omega (arith, bit_and-zero w)
bit_and_mask (suc n) w =
    let half : (2 ^ suc n - 1) / 2 ≡ 2 ^ n - 1 = omega (arith, pow-suc 2 n) in
    let ih = bit_and_mask n (w / 2) in
    let pos = one-le-pow n 2 (omega arith) in
    let twice : 2 * 2 ^ n ≡ 2 ^ suc n = omega (arith, pow-suc 2 n) in
    let digits = mod_double w (2 ^ n) pos in
    bit_and_step w (2 ^ suc n - 1)
    ∙ rw (half, ih) (ground (arith, pow-suc 2 n))
    ∙ sym digits
    ∙ ap (λ (m : ℕ). w % m) twice
