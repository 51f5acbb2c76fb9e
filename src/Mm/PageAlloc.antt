-- ===== src/Mm/PageAlloc.antt =====
-- mm/page_alloc.c: the physical page allocator, a bitmap with a bit for each 4 KB page.
pub mod Bitmap
pub mod Alloc
pub mod Free
mod Tests
use relis.Prelude.{
  ℕ, zero, suc, ◌+◌, ◌-◌, ◌*◌, ◌/◌, ◌%◌, ◌^◌, Option, none, some, bit_and, bit_or, not64, update,
  ltb, leb, ◌==◌, if◌then◌else◌,
}

abbrev pub page_size : ℕ
page_size = 4096

abbrev pub max_phys_pages : ℕ
max_phys_pages = 65536

abbrev pub bits_per_word : ℕ
bits_per_word = 64

-- The statics of the file, and physical memory as 64-bit words: `mem k` is the word at address
-- `8 * k`, which the kernel reaches through the direct map. Page `i` is the words `512 * i` on.
pub record Pmm : Type 0 where
  pub bitmap : ℕ → ℕ
  pub pages_total : ℕ
  pub pages_free : ℕ
  pub next_free_page : ℕ
  pub mem : ℕ → ℕ

-- `1ULL << (i % BITS_PER_WORD)`
abbrev pub page_bit : ℕ → ℕ
page_bit i = 2 ^ (i % bits_per_word)

-- `pmm_bitmap[i / BITS_PER_WORD] |= bit`
unfoldable pub set_page : (ℕ → ℕ) → ℕ → ℕ → ℕ
set_page bitmap i =
    update bitmap (i / bits_per_word) (bit_or (bitmap (i / bits_per_word)) (page_bit i))

-- `pmm_bitmap[i / BITS_PER_WORD] &= ~bit`
unfoldable pub clear_page : (ℕ → ℕ) → ℕ → ℕ → ℕ
clear_page bitmap i =
    update bitmap (i / bits_per_word) (bit_and (bitmap (i / bits_per_word)) (not64 (page_bit i)))

-- `kmemset(phys_to_virt(phys), 0, PAGE_SIZE)` for page `i`
unfoldable pub zero_page : (ℕ → ℕ) → ℕ → ℕ → ℕ
zero_page mem i k = if k / 512 == i then 0 else mem k

-- the loop of `pmm_init` over the kernel's pages, from `i` with `n` rounds left
unfoldable pub reserve : ℕ → ℕ → (ℕ → ℕ) → ℕ → ℕ
reserve zero i bitmap = bitmap
reserve (suc n) i bitmap = reserve n (i + 1) (set_page bitmap i)

-- `kernel_phys_end` is what the linker gives as the end of the kernel. The assignments to
-- `uint32_t` wrap.
unfoldable pub pmm_init : ℕ → ℕ → Pmm → Pmm
unfolding reserve
pmm_init total_kb kernel_phys_end p =
    let kernel_pages = (kernel_phys_end + page_size - 1) / page_size % 2 ^ 32 in
    let pages = total_kb / 4 in
    let total = if ltb max_phys_pages pages then max_phys_pages else pages in
    record p {
      bitmap = reserve kernel_pages 0 (λ _. 0);
      pages_total = total;
      pages_free = (total + 2 ^ 32 - kernel_pages) % 2 ^ 32;
    }

-- the body of the loop of `alloc_page` once a clear bit is found
unfoldable pub take_page : ℕ → Pmm → ℕ × Pmm
take_page i p = (
  i * page_size,
  record p {
    bitmap = set_page p.bitmap i;
    pages_free = (p.pages_free + 2 ^ 32 - 1) % 2 ^ 32;
    next_free_page = i + 1;
    mem = zero_page p.mem i;
  },
)

-- the loop of `alloc_page` from `i` with `n` rounds left; `none` is the halt after the panic
unfoldable pub scan : ℕ → ℕ → Pmm → Option (ℕ × Pmm)
scan zero i p = none
scan (suc n) i p =
    let rest = scan n (i + 1) p in
    if bit_and (p.bitmap (i / bits_per_word)) (page_bit i) == 0 then some (take_page i p) else rest

unfoldable pub alloc_page : Pmm → Option (ℕ × Pmm)
unfolding scan
alloc_page p = scan (p.pages_total - p.next_free_page) p.next_free_page p

-- the body of `free_page` once the bit is found set
unfoldable pub give_page : ℕ → Pmm → Pmm
give_page i p = record p {
  bitmap = clear_page p.bitmap i;
  pages_free = (p.pages_free + 1) % 2 ^ 32;
  next_free_page = if ltb i p.next_free_page then i else p.next_free_page;
}

unfoldable pub free_page : ℕ → Pmm → Pmm
free_page phys p =
    let i = phys / page_size % 2 ^ 32 in
    if leb p.pages_total i
    then p
    else if bit_and (p.bitmap (i / bits_per_word)) (page_bit i) == 0
    then p
    else give_page i p
