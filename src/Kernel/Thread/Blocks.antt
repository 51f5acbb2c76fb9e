-- ===== src/Kernel/Thread/Blocks.antt =====
-- Blocks that kmalloc of mm/slab.c gives while the heap has room, as kernel/ gets them.
use relis.Prelude.{ℕ, ◌+◌, ◌%◌, ◌^◌, ◌≤◌, ◌<◌, ◌≡◌, refl, ap, false, Option, none, some, arith, ltb}
use relis.Mm.Slab.{Slab, kmalloc, align16, kernel_heap_size}
use relis.Kernel.State.{Kernel}
use relis.Kernel.Thread.{new_block, zeroed_block}

-- the kernel once `n` more bytes of its heap are taken
abbrev pub advance : ℕ → Kernel → Kernel
advance n k = record k { heap = record (k.heap) { heap_ptr = k.heap.heap_ptr + n } }

abbrev pub top : Kernel → ℕ
top k = k.at.heap_base + k.heap.heap_ptr

kmalloc_lem :
    (size n : ℕ) (h : Slab)
    → align16 size ≡ n
    → n < 5000
    → size < 5000
    → h.heap_ptr + size ≤ kernel_heap_size
    → kmalloc size h ≡ (some h.heap_ptr, record h { heap_ptr = h.heap_ptr + n })
unfolding kmalloc
kmalloc_lem size n h e a b l =
    let fits : ltb kernel_heap_size ((h.heap_ptr + size) % 2 ^ 64) ≡ false = ground (arith, l) in
    let next : (h.heap_ptr + n) % 2 ^ 32 ≡ h.heap_ptr + n = omega arith in
    rw (kmalloc, fits, e, next) refl

pub new_block_lem :
    (size n : ℕ) (k : Kernel)
    → align16 size ≡ n
    → n < 5000
    → size < 5000
    → k.heap.heap_ptr + size ≤ kernel_heap_size
    → new_block size k ≡ (some (top k), advance n k)
unfolding new_block
new_block_lem size n k e a b h = ap (placed k) (kmalloc_lem size n k.heap e a b h)
  where
    placed : Kernel → Option ℕ × Slab → Option ℕ × Kernel
    placed k r = elim r.0 [
      | none ↦ (none, record k { heap = r.1 })
      | some p ↦ (some (k.at.heap_base + p), record k { heap = r.1 })
    ]

pub block :
    (size n : ℕ) (k : Kernel)
    → align16 size ≡ n
    → n < 5000
    → size < 5000
    → k.heap.heap_ptr + size ≤ kernel_heap_size
    → zeroed_block size k ≡ some (top k, advance n k)
unfolding zeroed_block
block size n k e a b h = ap not_null (new_block_lem size n k e a b h)
  where
    not_null : Option ℕ × Kernel → Option (ℕ × Kernel)
    not_null r = elim r.0 [ none ↦ none | some p ↦ some (p, r.1) ]

pub further : (b p n : ℕ) → b + (p + n) ≡ b + p + n
further b p n = omega arith

pub advance_twice : (n m : ℕ) (k : Kernel) → advance m (advance n k) ≡ advance (n + m) k
advance_twice n m k =
    let e : k.heap.heap_ptr + n + m ≡ k.heap.heap_ptr + (n + m) = omega arith in
    ap (λ (p : ℕ). record k { heap = record (k.heap) { heap_ptr = p } }) e
