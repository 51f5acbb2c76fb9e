-- ===== src/Mm/PageAlloc/Bitmap.antt =====
-- The bitmap of mm/page_alloc.c read a page at a time, and the count of its clear bits.
use relis.Prelude.{
  Bool-cases, inl, inr, ℕ, zero, suc, ◌+◌, ◌/◌, ◌%◌, ◌^◌, ◌≤◌, ◌<◌, ◌≡◌, refl, Bool, true, false,
  not, ◌&&◌, ◌||◌, bit_and, ◌==◌, if◌then◌else◌, arith, test_bit, bit_and-pow, test_bit-or,
  test_bit-and, test_bit-pow, test_bit-not64, not64, bit_or-lt, bit_and-le, pow-lt,
}
use native.Mathlib.Nat.{one-le-pow}
use relis.Mm.PageAlloc.{bits_per_word, page_bit, set_page, clear_page}

-- page `i` is in use
abbrev pub used : (ℕ → ℕ) → ℕ → Bool
used bitmap i = test_bit (bitmap (i / bits_per_word)) (i % bits_per_word)

-- every word of the bitmap has 64 bits
abbrev pub IsWords : (ℕ → ℕ) → Type 0
IsWords bitmap = (k : ℕ) → bitmap k < 2 ^ 64

-- The mask test of the source asks for the bit.
pub mask_test :
    (bitmap : ℕ → ℕ) (i : ℕ)
    → (bit_and (bitmap (i / bits_per_word)) (page_bit i) == 0) ≡ not (used bitmap i)
mask_test bitmap i = ground (
  arith,
  bit_and-pow (i % bits_per_word) (bitmap (i / bits_per_word)),
  one-le-pow (i % bits_per_word) 2,
)

pub used-set_page :
    (bitmap : ℕ → ℕ) (i j : ℕ) → used (set_page bitmap i) j ≡ (i == j) || used bitmap j
unfolding set_page
used-set_page bitmap i j = ground (
  arith,
  test_bit-or (j % bits_per_word) (bitmap (i / bits_per_word)) (page_bit i),
  test_bit-pow (i % bits_per_word) (j % bits_per_word),
)

pub used-clear_page :
    (bitmap : ℕ → ℕ) (i j : ℕ)
    → IsWords bitmap
    → used (clear_page bitmap i) j ≡ not (i == j) && used bitmap j
unfolding clear_page
used-clear_page bitmap i j w = ground (
  arith,
  test_bit-and (j % bits_per_word) (bitmap (i / bits_per_word)) (not64 (page_bit i)),
  test_bit-not64 (j % bits_per_word) (page_bit i),
  pow-lt (i % bits_per_word) 64,
  test_bit-pow (i % bits_per_word) (j % bits_per_word),
)

pub set_page-IsWords : (bitmap : ℕ → ℕ) (i : ℕ) → IsWords bitmap → IsWords (set_page bitmap i)
unfolding set_page
set_page-IsWords bitmap i w k = ground (
  arith,
  w k,
  w (i / bits_per_word),
  pow-lt (i % bits_per_word) 64,
  bit_or-lt 64 (bitmap (i / bits_per_word)) (page_bit i),
)

pub clear_page-IsWords : (bitmap : ℕ → ℕ) (i : ℕ) → IsWords bitmap → IsWords (clear_page bitmap i)
unfolding clear_page
clear_page-IsWords bitmap i w k = ground (
  arith,
  w k,
  w (i / bits_per_word),
  bit_and-le 64 (bitmap (i / bits_per_word)) (not64 (page_bit i)),
)

-- how many of the pages below `n` are clear
unfoldable pub count_clear : (ℕ → Bool) → ℕ → ℕ
count_clear f zero = 0
count_clear f (suc n) = count_clear f n + (if f n then 0 else 1)

pub count_clear-le : (f : ℕ → Bool) (n : ℕ) → count_clear f n ≤ n
unfolding count_clear
count_clear-le f zero = omega arith
count_clear-le f (suc n) = ground (arith, count_clear-le f n)

-- Two maps that agree below `n` have as many clear pages there.
pub count_clear-agree :
    (f g : ℕ → Bool) (n : ℕ) → ((j : ℕ) → j < n → f j ≡ g j) → count_clear f n ≡ count_clear g n
unfolding count_clear
count_clear-agree f g zero h = refl
count_clear-agree f g (suc n) h =
    ground (arith, h n (omega arith), count_clear-agree f g n (λ j p. h j (omega arith)))

-- Setting one clear page takes one from the count.
pub count_clear-take :
    (f g : ℕ → Bool) (i n : ℕ)
    → i < n
    → f i ≡ false
    → ((j : ℕ) → g j ≡ ((i == j) || f j))
    → count_clear g n + 1 ≡ count_clear f n
unfolding count_clear
count_clear-take f g i zero p c h = absurd (omega arith)
count_clear-take f g i (suc n) p c h = elim (Bool-cases (i == n)) [
  | inl e ↦ ground (arith, h n, count_clear-agree f g n (λ j q. ground (arith, h j)))
  | inr e ↦ ground (arith, h n, count_clear-take f g i n (ground arith) c h)
]

-- With every page set there is none to count, and some clear page otherwise.
pub count_clear-pos : (f : ℕ → Bool) (i n : ℕ) → i < n → f i ≡ false → 0 < count_clear f n
unfolding count_clear
count_clear-pos f i zero p c = absurd (omega arith)
count_clear-pos f i (suc n) p c = elim (Bool-cases (i == n)) [
  | inl e ↦ ground arith
  | inr e ↦ ground (arith, count_clear-pos f i n (ground arith) c)
]

pub count_clear-none : (f : ℕ → Bool) (n : ℕ) → ((j : ℕ) → j < n → f j ≡ true) → count_clear f n ≡ 0
unfolding count_clear
count_clear-none f zero h = refl
count_clear-none f (suc n) h =
    ground (arith, h n (omega arith), count_clear-none f n (λ j p. h j (omega arith)))
