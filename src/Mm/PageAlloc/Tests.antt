-- ===== src/Mm/PageAlloc/Tests.antt =====
-- Runs of mm/page_alloc.c on four pages of memory, one of them the kernel's, and the theorems
-- there.
use relis.Prelude.{ℕ, ◌+◌, ◌-◌, ◌*◌, ◌/◌, ◌<◌, ◌≡◌, refl, ◌↔◌, true, Option, none, some, arith, ltb}
use relis.Mm.PageAlloc.{Pmm, pmm_init, alloc_page, free_page, page_size, take_page}
use relis.Mm.PageAlloc.{set_page}
use relis.Mm.PageAlloc.Alloc.{IsValid, Taken, alloc_page-Taken, alloc_page-none, pmm_init-IsValid}
use relis.Mm.PageAlloc.Bitmap.{used}
use relis.Mm.PageAlloc.Free.{free_page-alloc_page}

abbrev blank : Pmm
blank = record {
  bitmap = λ _. 0;
  pages_total = 0;
  pages_free = 0;
  next_free_page = 0;
  mem = λ _. 7;
}

abbrev small : Pmm
small = pmm_init 16 4096 blank

small_counts : (small.pages_total ≡ 4) × (small.pages_free ≡ 3) × (small.bitmap 0 ≡ 1)
unfolding pmm_init set_page
small_counts = (refl, refl, refl)

abbrev first : Option (ℕ × Pmm) → ℕ
first none = 0
first (some (phys, p)) = phys

first_page : first (alloc_page small) ≡ 4096
unfolding pmm_init alloc_page take_page set_page
first_page = refl

pmm_init-IsValid_example :
    IsValid (pmm_init 16 4096 blank)
    × ((j : ℕ)
        → used (pmm_init 16 4096 blank).bitmap j ≡ ltb j ((4096 + page_size - 1) / page_size))
pmm_init-IsValid_example = pmm_init-IsValid 16 4096 blank refl (omega arith)

some_free : 0 < small.pages_free
unfolding pmm_init
some_free = omega arith

small-IsValid : IsValid small
small-IsValid = (pmm_init-IsValid 16 4096 blank refl (omega arith)).0

alloc_page-Taken_example :
    (i : ℕ) × (q : Pmm) × (alloc_page small ≡ some (i * page_size, q)) × Taken small i q
alloc_page-Taken_example = alloc_page-Taken small small-IsValid some_free

alloc_page-none_example :
    ((alloc_page small ≡ none) ↔ (small.pages_free ≡ 0))
    × ((small.pages_free ≡ 0) ↔ ((j : ℕ) → j < small.pages_total → used small.bitmap j ≡ true))
alloc_page-none_example = alloc_page-none small small-IsValid

abbrev after : Pmm
after = (take_page 1 small).1

alloc_small : alloc_page small ≡ some (4096, after)
unfolding pmm_init alloc_page take_page set_page
alloc_small = refl

free_page-alloc_page_example :
    ((j : ℕ) → used (free_page 4096 after).bitmap j ≡ used small.bitmap j)
    × ((free_page 4096 after).pages_free ≡ small.pages_free)
    × ((r : Pmm) × (alloc_page (free_page 4096 after) ≡ some (4096, r)))
free_page-alloc_page_example =
    free_page-alloc_page small small-IsValid some_free 4096 after alloc_small
