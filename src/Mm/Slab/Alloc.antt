-- ===== src/Mm/Slab/Alloc.antt =====
-- Bounds, alignment and disjointness of the blocks that the bump allocator hands out.
use relis.Prelude.{
  ℕ, ◌+◌, ◌-◌, ◌*◌, ◌/◌, ◌%◌, ◌^◌, ◌≤◌, ◌<◌, ◌≡◌, inl, inr, none, some, List, [], ◌∷◌, arith, leb,
  leb→le, Bool-cases, bit_and_align,
}
use relis.Mm.Slab.{Slab, kernel_heap_size, align16, kmalloc, kmalloc_all}

pub record IsValid (s : Slab) : Type 0 where
  pub bound : s.heap_ptr ≤ kernel_heap_size
  pub aligned : s.heap_ptr % 16 ≡ 0

-- sizes whose rounding does not wrap, and with which the test of kmalloc does not wrap
abbrev pub Sane : ℕ → Type 0
Sane size = size < 2 ^ 64 - 2 ^ 23

pub align16_lem : (size : ℕ) → align16 size ≡ (size + 15) % 2 ^ 64 / 16 * 16
unfolding align16
align16_lem size = bit_and_align 4 60 ((size + 15) % 2 ^ 64) (omega arith)

-- On a valid heap and a size that does not wrap, kmalloc gives out the bytes at the old pointer,
-- 16-byte aligned and inside the region, and moves the pointer past them but not out of the
-- region, if the block fits. Otherwise it returns null and changes nothing.
pub kmalloc-fits :
    (s : Slab) (size : ℕ)
    → IsValid s
    → Sane size
    → (s.heap_ptr + size ≤ kernel_heap_size
        → ((kmalloc size s).0 ≡ some s.heap_ptr)
          × (s.heap_ptr % 16 ≡ 0)
          × (s.heap_ptr + size ≤ (kmalloc size s).1.heap_ptr)
          × ((kmalloc size s).1.heap_ptr < s.heap_ptr + size + 16)
          × IsValid (kmalloc size s).1)
      × (kernel_heap_size < s.heap_ptr + size → kmalloc size s ≡ (none, s))
unfolding kmalloc
kmalloc-fits s size v h = ground (arith, align16_lem size)

wrapped :
    (s : Slab) (size : ℕ)
    → IsValid s
    → size < 2 ^ 64
    → 2 ^ 64 ≤ s.heap_ptr + size
    → ((kmalloc size s).0 ≡ some s.heap_ptr)
      × ((kmalloc size s).1.heap_ptr ≤ s.heap_ptr)
      × IsValid (kmalloc size s).1
unfolding kmalloc
wrapped s size v h w =
    let l : (kmalloc size s).1.heap_ptr ≤ s.heap_ptr = ground (arith, align16_lem size) in
    (ground (arith, align16_lem size), l, ground (arith, align16_lem size, l))

-- every block of the list lies between the two offsets, each wholly behind the one before
abbrev pub InOrder : ℕ → List (ℕ × ℕ) → ℕ → Type 0
InOrder lo [] hi = lo ≤ hi
InOrder lo ((p, size) ∷ blocks) hi = (lo ≤ p) × InOrder (p + size) blocks hi

abbrev AllSane : List ℕ → Type 0
AllSane [] = Unit
AllSane (x ∷ xs) = Sane x × AllSane xs

InOrder-weaken :
    (lo lo' : ℕ) (b : List (ℕ × ℕ)) (hi : ℕ) → lo' ≤ lo → InOrder lo b hi → InOrder lo' b hi
InOrder-weaken lo lo' [] hi h i = omega arith
InOrder-weaken lo lo' ((p, size) ∷ b) hi h i = (omega arith, i.1)

-- On a valid heap, the blocks of any sequence of calls with sizes that do not wrap follow one
-- another between the old pointer and the new one: no two overlap, and none overlaps an earlier
-- block or leaves the region. The heap stays valid.
pub kmalloc_all-InOrder :
    (sizes : List ℕ) (s : Slab)
    → IsValid s
    → AllSane sizes
    → InOrder s.heap_ptr (kmalloc_all sizes s).0 (kmalloc_all sizes s).1.heap_ptr
      × IsValid (kmalloc_all sizes s).1
unfolding kmalloc_all
kmalloc_all-InOrder [] s v a = (omega arith, v)
kmalloc_all-InOrder (size ∷ sizes) s v a =
    let fits = kmalloc-fits s size v a.0 in
    elim (Bool-cases (leb (s.heap_ptr + size) kernel_heap_size)) [
      | inl room ↦
          let (got, _, past, _, valid) = fits.0 (leb→le _ _ room) in
          let (rest, valid') = kmalloc_all-InOrder sizes (kmalloc size s).1 valid a.1 in
          rw got ((omega arith, InOrder-weaken _ _ _ _ past rest), valid')
      | inr full ↦ rw (fits.1 (ground arith)) (kmalloc_all-InOrder sizes s v a.1)
    ]

-- A size so large that the test wraps is not refused: kmalloc returns the old pointer, and moves
-- it back or leaves it, on a heap that stays valid. A later block that fits then begins where this one
-- does or before it, in bytes that were handed out already.
pub kmalloc_wraps :
    (s : Slab) (size n : ℕ)
    → IsValid s
    → size < 2 ^ 64
    → 2 ^ 64 ≤ s.heap_ptr + size
    → s.heap_ptr + n ≤ kernel_heap_size
    → ((kmalloc size s).0 ≡ some s.heap_ptr)
      × IsValid (kmalloc size s).1
      × ((q : ℕ) × ((kmalloc n (kmalloc size s).1).0 ≡ some q)
          × (q ≤ s.heap_ptr)
          × (q < s.heap_ptr + size))
kmalloc_wraps s size n v h w room =
    let (got, back, valid) = wrapped s size v h w in
    let s₁ = (kmalloc size s).1 in
    let next = ((kmalloc-fits s₁ n valid (omega arith)).0 (omega arith)).0 in
    (got, valid, (s₁.heap_ptr, next, back, omega arith))
