-- ===== src/Mm/Slab.antt =====
-- mm/slab.c: the kernel heap, a bump allocator over a region of 4 MB.
pub mod Alloc
mod Tests
use relis.Prelude.{
  ℕ, zero, suc, ◌+◌, ◌-◌, ◌*◌, ◌/◌, ◌%◌, ◌^◌, ◌≤◌, ◌<◌, min, bit_and, bit_or, bit_xor, ◌≡◌, refl,
  sym, ap, ◌∙◌, subst, ◌≢◌, ◌↔◌, ◌⊎◌, inl, inr, Bool, true, false, not, ◌&&◌, ◌||◌, Option, none,
  some, List, [], ◌∷◌, ◌++◌, map, append_assoc, append-nil, arith, ltb, leb, ◌==◌, if◌then◌else◌,
  ltb→lt, lt→ltb, leb→le, ==_iff, tests, Bool-cases, Option-cases, length, get_elem?, get_or, set,
  take, drop, replicate, length-append, length-set, get_or-set_self, get_or-set_ne, length-take,
  length-drop, take-append-drop, length-replicate, get_or-replicate, update, update_self, update_ne,
  test_bit, not64, bit_and_step, bit_or_step, test_bit-and, test_bit-or, test_bit-pow,
  test_bit-not64, bit_and-zero, bit_and-pow, bit_or-lt, bit_and-le, pow-lt, bit_and-ones,
  test_bit-zero, bit_and_align, bit_and_high,
}

-- `heap_ptr`, and the bytes of `kernel_heap_region`. A pointer into the region is its offset.
-- The lock is taken and released on every path, so a call is one step.
pub record Slab : Type 0 where
  pub heap_ptr : ℕ
  pub region : ℕ → ℕ

abbrev pub kernel_heap_size : ℕ
kernel_heap_size = 4 * 1024 * 1024

-- `(size + 15) & ~15` on a 64-bit size
unfoldable pub align16 : ℕ → ℕ
align16 size = bit_and ((size + 15) % 2 ^ 64) (not64 15)

-- The sum of the test is 64 bits wide, `heap_ptr` has 32 bits. `none` is the null pointer.
unfoldable pub kmalloc : ℕ → Slab → Option ℕ × Slab
kmalloc size s =
    if ltb kernel_heap_size ((s.heap_ptr + size) % 2 ^ 64)
    then (none, s)
    else (some s.heap_ptr, record s { heap_ptr = (s.heap_ptr + align16 size) % 2 ^ 32 })

-- `kmemset(ptr, 0, n)` inside the region
unfoldable pub clear_bytes : (ℕ → ℕ) → ℕ → ℕ → ℕ → ℕ
clear_bytes region ptr n a = if leb ptr a && ltb a (ptr + n) then 0 else region a

-- The product wraps at 64 bits.
unfoldable pub kcalloc : ℕ → ℕ → Slab → Option ℕ × Slab
kcalloc nmemb size s =
    let total = nmemb * size % 2 ^ 64 in
    let (ptr, t) = kmalloc total s in
    elim ptr [
      | none ↦ (none, t)
      | some p ↦ (some p, record t { region = clear_bytes t.region p total })
    ]

-- `kfree` gives nothing back.
unfoldable pub kfree : ℕ → Slab → Slab
kfree ptr s = s

-- a sequence of calls of kmalloc: the block of each that succeeds, as its offset and size
unfoldable pub add_block : Option ℕ → ℕ → List (ℕ × ℕ) → List (ℕ × ℕ)
add_block none size blocks = blocks
add_block (some p) size blocks = (p, size) ∷ blocks

unfoldable pub kmalloc_all : List ℕ → Slab → List (ℕ × ℕ) × Slab
unfolding add_block
kmalloc_all [] s = ([], s)
kmalloc_all (size ∷ sizes) s =
    let (ptr, t) = kmalloc size s in
    let (blocks, u) = kmalloc_all sizes t in (add_block ptr size blocks, u)
