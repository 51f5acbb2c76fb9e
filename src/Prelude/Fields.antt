-- ===== src/Prelude/Fields.antt =====
-- Fields of a word: numbers put next to each other by shifts and bit_or.
use Prim.Native.Nat.{ℕ, zero, suc, ◌+◌, ◌*◌, ◌/◌, ◌%◌, ◌^◌, ◌<◌, bit_or}
use mathlib.Core.Path.{◌≡◌, refl, ap, ◌∙◌}
use native.Mathlib.Nat.{pow-suc}
use native.Mathlib.Omega.{arith}
use relis.Prelude.Bits.{bit_or_step}

twice_high : (q k : ℕ) → q * 2 ^ suc k ≡ 2 * (q * 2 ^ k)
twice_high q k = grind (arith, pow-suc 2 k)

halved : (a b k : ℕ) → (a + b * 2 ^ suc k) / 2 ≡ a / 2 + b * 2 ^ k
halved a b k = omega (arith, twice_high b k)

lowest : (a b k : ℕ) → (a + b * 2 ^ suc k) % 2 ≡ a % 2
lowest a b k = omega (arith, twice_high b k)

-- The words below and above bit `k` are independent.
pub bit_or_split :
    (k a b c d : ℕ)
    → a < 2 ^ k
    → c < 2 ^ k
    → bit_or (a + b * 2 ^ k) (c + d * 2 ^ k) ≡ bit_or a c + bit_or b d * 2 ^ k
bit_or_split zero zero b zero d p q =
    let e : zero + b * 2 ^ 0 ≡ b = omega arith in
    let f : zero + d * 2 ^ 0 ≡ d = omega arith in rw (e, f) (omega arith)
bit_or_split zero zero b (suc c) d p q = absurd (omega arith)
bit_or_split zero (suc a) b c d p q = absurd (omega arith)
bit_or_split (suc k) a b c d p q =
    let ih =
      bit_or_split k (a / 2) b (c / 2) d (omega (arith, pow-suc 2 k))
        (omega (arith, pow-suc 2 k)) in
    bit_or_step (a + b * 2 ^ suc k) (c + d * 2 ^ suc k)
    ∙ rw (halved a b k, halved c d k, lowest a b k, lowest c d k, ih)
        (omega (arith, bit_or_step a c, twice_high (bit_or b d) k))

pub bit_or-zero_left : (n a : ℕ) → a < 2 ^ n → bit_or 0 a ≡ a
bit_or-zero_left zero zero h = refl
bit_or-zero_left zero (suc a) h = absurd (omega arith)
bit_or-zero_left (suc n) a h =
    omega (arith, bit_or_step 0 a, bit_or-zero_left n (a / 2) (omega (arith, pow-suc 2 n)))

pub bit_or-zero_right : (n a : ℕ) → a < 2 ^ n → bit_or a 0 ≡ a
bit_or-zero_right zero zero h = refl
bit_or-zero_right zero (suc a) h = absurd (omega arith)
bit_or-zero_right (suc n) a h =
    omega (arith, bit_or_step a 0, bit_or-zero_right n (a / 2) (omega (arith, pow-suc 2 n)))

-- A field of `w` bits that lies between what is there is put in its place.
pub bit_or_field :
    (k w n lo hi f : ℕ)
    → lo < 2 ^ k
    → f < 2 ^ w
    → hi < 2 ^ n
    → bit_or (lo + hi * 2 ^ w * 2 ^ k) (f * 2 ^ k) ≡ lo + (f + hi * 2 ^ w) * 2 ^ k
bit_or_field k w n lo hi f a b c =
    let e : f * 2 ^ k ≡ 0 + f * 2 ^ k = omega arith in
    let g : hi * 2 ^ w ≡ 0 + hi * 2 ^ w = omega arith in
    let f' : f ≡ f + 0 * 2 ^ w = omega arith in
    let upper : bit_or (hi * 2 ^ w) f ≡ f + hi * 2 ^ w =
      ap (λ (x : ℕ). bit_or x f) g
      ∙ ap (bit_or (0 + hi * 2 ^ w)) f'
      ∙ bit_or_split w 0 hi f 0 (omega arith) b
      ∙ ap (λ (x : ℕ). x + bit_or hi 0 * 2 ^ w) (bit_or-zero_left w f b)
      ∙ ap (λ (x : ℕ). f + x * 2 ^ w) (bit_or-zero_right n hi c) in
    ap (bit_or (lo + hi * 2 ^ w * 2 ^ k)) e
    ∙ bit_or_split k lo (hi * 2 ^ w) 0 f a (omega arith)
    ∙ ap (λ (x : ℕ). x + bit_or (hi * 2 ^ w) f * 2 ^ k) (bit_or-zero_right k lo a)
    ∙ ap (λ (x : ℕ). lo + x * 2 ^ k) upper
