-- ===== src/Mm/PageAlloc/Alloc.antt =====
-- What alloc_page and pmm_init of mm/page_alloc.c do to a valid allocator.
use relis.Prelude.{
  ℕ, zero, suc, ◌+◌, ◌-◌, ◌*◌, ◌/◌, ◌%◌, ◌^◌, ◌≤◌, ◌<◌, min, ◌≡◌, refl, ◌≢◌, ◌↔◌, inl, inr, Bool,
  true, false, ◌&&◌, ◌||◌, none, some, arith, ltb, leb, ◌==◌, if◌then◌else◌, Bool-cases,
}
use relis.Mm.PageAlloc.{reserve, pmm_init}
use relis.Mm.PageAlloc.{
  Pmm, max_phys_pages, page_size, set_page, zero_page, take_page, scan, alloc_page,
}
use relis.Prelude.{test_bit-zero}
use relis.Mm.PageAlloc.Bitmap.{
  used, IsWords, mask_test, used-set_page, set_page-IsWords, count_clear, count_clear-take,
  count_clear-pos, count_clear-none, count_clear-le,
}

-- The counter is the number of clear bits, and no page below the hint is clear.
pub record IsValid (p : Pmm) : Type 0 where
  pub total : p.pages_total ≤ max_phys_pages
  pub hint : p.next_free_page ≤ p.pages_total
  pub free : p.pages_free ≡ count_clear (used p.bitmap) p.pages_total
  pub below : (j : ℕ) → j < p.next_free_page → used p.bitmap j ≡ true
  pub words : IsWords p.bitmap

-- What a call that takes page `i` leaves.
pub record Taken (p : Pmm) (i : ℕ) (q : Pmm) : Type 0 where
  pub in_range : i < p.pages_total
  pub was_clear : used p.bitmap i ≡ false
  pub lowest : (j : ℕ) → j < i → used p.bitmap j ≡ true
  pub now_used : (j : ℕ) → used q.bitmap j ≡ ((i == j) || used p.bitmap j)
  pub one_less : q.pages_free + 1 ≡ p.pages_free
  pub zeroed : (k : ℕ) → k / 512 ≡ i → q.mem k ≡ 0
  pub others : (k : ℕ) → k / 512 ≢ i → q.mem k ≡ p.mem k
  pub total : q.pages_total ≡ p.pages_total
  pub valid : IsValid q

take_page-Taken :
    (p : Pmm) (i : ℕ)
    → IsValid p
    → i < p.pages_total
    → used p.bitmap i ≡ false
    → ((j : ℕ) → j < i → used p.bitmap j ≡ true)
    → Taken p i (take_page i p).1
unfolding take_page zero_page
take_page-Taken p i v r c l = record {
  in_range = r;
  was_clear = c;
  lowest = l;
  now_used = used-set_page p.bitmap i;
  one_less = less;
  zeroed = λ k e. ground arith;
  others = λ k e. ground arith;
  total = refl;
  valid = record {
    total = v.total;
    hint = omega arith;
    free = omega (arith, counted, less, v.free);
    below = λ j h. ground (arith, used-set_page p.bitmap i j, l j);
    words = set_page-IsWords p.bitmap i v.words;
  };
}
  where
    counted :
        count_clear (used (set_page p.bitmap i)) p.pages_total + 1
        ≡ count_clear (used p.bitmap) p.pages_total
    counted =
        count_clear-take (used p.bitmap) (used (set_page p.bitmap i)) i p.pages_total r c
          (used-set_page p.bitmap i)

    less : (p.pages_free + 2 ^ 32 - 1) % 2 ^ 32 + 1 ≡ p.pages_free
    less = omega (arith, counted, v.free, v.total, count_clear-le (used p.bitmap) p.pages_total)

-- The loop from `i`, with everything below in use.
scan-Taken :
    (n i : ℕ) (p : Pmm)
    → IsValid p
    → i + n ≡ p.pages_total
    → ((j : ℕ) → j < i → used p.bitmap j ≡ true)
    → 0 < p.pages_free
    → (k : ℕ) × (q : Pmm) × (scan n i p ≡ some (k * page_size, q)) × Taken p k q
unfolding scan take_page
scan-Taken zero i p v e l f = absurd (
    omega
      (arith, v.free, count_clear-none (used p.bitmap) p.pages_total (λ j h. l j (omega arith))))
scan-Taken (suc n) i p v e l f = elim (Bool-cases (used p.bitmap i)) [
  | inl busy ↦
      let (k, q, r, t) =
        scan-Taken n (i + 1) p v (omega arith)
          (λ j h. elim (Bool-cases (i == j)) [
            | inl same ↦ ground arith
            | inr other ↦ l j (ground arith)
          ])
          f in
      (k, q, ground (arith, mask_test p.bitmap i, r), t)
  | inr clear ↦ (
    i,
    (take_page i p).1,
    ground (arith, mask_test p.bitmap i),
    take_page-Taken p i v (omega arith) clear l,
  )
]

scan-none : (n i : ℕ) (p : Pmm) → ((j : ℕ) → j < i + n → used p.bitmap j ≡ true) → scan n i p ≡ none
unfolding scan
scan-none zero i p l = refl
scan-none (suc n) i p l = ground (
  arith,
  mask_test p.bitmap i,
  l i (omega arith),
  scan-none n (i + 1) p (λ j h. l j (omega arith)),
)

all_used_of_free_zero :
    (p : Pmm) → IsValid p → p.pages_free ≡ 0 → (j : ℕ) → j < p.pages_total → used p.bitmap j ≡ true
all_used_of_free_zero p v z j h = elim (Bool-cases (used p.bitmap j)) [
  | inl busy ↦ busy
  | inr clear ↦
      absurd (omega (arith, v.free, count_clear-pos (used p.bitmap) j p.pages_total h clear))
]

-- On a valid allocator with a page left, alloc_page returns the address of the lowest clear page.
-- It marks that page and no other, counts it off, zeroes its words and no others, and leaves a
-- valid allocator.
pub alloc_page-Taken :
    (p : Pmm)
    → IsValid p
    → 0 < p.pages_free
    → (i : ℕ) × (q : Pmm) × (alloc_page p ≡ some (i * page_size, q)) × Taken p i q
unfolding alloc_page
alloc_page-Taken p v f =
    scan-Taken (p.pages_total - p.next_free_page) p.next_free_page p v (omega (arith, v.hint))
      v.below f

-- On a valid allocator alloc_page halts exactly when the free counter is zero, which is so exactly
-- when every page is in use.
pub alloc_page-none :
    (p : Pmm)
    → IsValid p
    → ((alloc_page p ≡ none) ↔ (p.pages_free ≡ 0))
      × ((p.pages_free ≡ 0) ↔ ((j : ℕ) → j < p.pages_total → used p.bitmap j ≡ true))
unfolding alloc_page
alloc_page-none p v = (
  (
    λ e. elim (Bool-cases (p.pages_free == 0)) [
      | inl z ↦ ground arith
      | inr f ↦ absurd (has_page e (ground arith))
    ],
    λ z. scan-none _ _ p (λ j h. all_used_of_free_zero p v z j (omega (arith, v.hint))),
  ),
  (all_used_of_free_zero p v, λ all. omega (arith, v.free, count_clear-none (used p.bitmap) _ all)),
)
  where
    has_page : alloc_page p ≡ none → 0 < p.pages_free → ⊥
    has_page e f = let (i, q, r, t) = alloc_page-Taken p v f in cc (e, r)

-- the kernel's pages are set, and nothing else
reserve-used :
    (n i : ℕ) (bitmap : ℕ → ℕ) (j : ℕ)
    → used (reserve n i bitmap) j ≡ ((leb i j && ltb j (i + n)) || used bitmap j)
unfolding reserve
reserve-used zero i bitmap j = ground arith
reserve-used (suc n) i bitmap j =
    ground (arith, reserve-used n (i + 1) (set_page bitmap i) j, used-set_page bitmap i j)

reserve-IsWords : (n i : ℕ) (bitmap : ℕ → ℕ) → IsWords bitmap → IsWords (reserve n i bitmap)
unfolding reserve
reserve-IsWords zero i bitmap w = w
reserve-IsWords (suc n) i bitmap w =
    reserve-IsWords n (i + 1) (set_page bitmap i) (set_page-IsWords bitmap i w)

count_clear-above :
    (f : ℕ → Bool) (k n : ℕ) → ((j : ℕ) → f j ≡ ltb j k) → count_clear f n + min k n ≡ n
unfolding count_clear
count_clear-above f k zero h = omega arith
count_clear-above f k (suc n) h = ground (arith, h n, count_clear-above f k n h)

-- Where the hint is still zero and the kernel's pages fit in the memory that pmm_init is told of
-- (a 32-bit number of kilobytes), it leaves a valid allocator in which exactly the kernel's pages
-- are in use.
pub pmm_init-IsValid :
    (total_kb kernel_end : ℕ) (p : Pmm)
    → p.next_free_page ≡ 0
    → (kernel_end + page_size - 1) / page_size ≤ min max_phys_pages (total_kb / 4)
    → IsValid (pmm_init total_kb kernel_end p)
      × ((j : ℕ)
          → used (pmm_init total_kb kernel_end p).bitmap j
            ≡ ltb j ((kernel_end + page_size - 1) / page_size))
unfolding pmm_init
pmm_init-IsValid total_kb kernel_end p z fits = (
  record {
    total = ground arith;
    hint = omega (arith, z);
    free = ground (arith, count_clear-above (used map) kernel total marks);
    below = λ j h. absurd (omega (arith, z));
    words = reserve-IsWords kernel 0 (λ _. 0) (λ k. omega arith);
  },
  λ j. ground (arith, marks j),
)
  where
    kernel : ℕ
    kernel = (kernel_end + page_size - 1) / page_size % 2 ^ 32

    total : ℕ
    total = if ltb max_phys_pages (total_kb / 4) then max_phys_pages else total_kb / 4

    map : ℕ → ℕ
    map = reserve kernel 0 (λ _. 0)

    marks : (j : ℕ) → used map j ≡ ltb j kernel
    marks j = ground (arith, reserve-used kernel 0 (λ _. 0) j, test_bit-zero (j % 64))
