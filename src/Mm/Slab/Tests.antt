-- ===== src/Mm/Slab/Tests.antt =====
-- Runs of mm/slab.c on an empty heap, and the theorems there.
use relis.Prelude.{ℕ, ◌+◌, ◌-◌, ◌^◌, ◌≤◌, ◌<◌, ◌≡◌, refl, none, some, [], ◌∷◌, arith}
use relis.Mm.Slab.{Slab, kmalloc, kcalloc, kfree, kmalloc_all, clear_bytes, align16}
use relis.Mm.Slab.Alloc.{IsValid, InOrder, kmalloc_all-InOrder, kmalloc_wraps}

abbrev empty : Slab
empty = record { heap_ptr = 0; region = λ _. 9 }

abbrev some_used : Slab
some_used = record { heap_ptr = 32; region = λ _. 9 }

two_blocks : (kmalloc_all (5 ∷ 20 ∷ []) empty).0 ≡ (0, 5) ∷ (16, 20) ∷ []
unfolding kmalloc_all kmalloc align16
two_blocks = refl

too_large : (kmalloc 4194305 empty).0 ≡ none
unfolding kmalloc
too_large = refl

-- 2 ^ 32 * 2 ^ 32 wraps to a block of no bytes
kcalloc_wraps : (kcalloc (2 ^ 32) (2 ^ 32) some_used).0 ≡ some 32
unfolding kcalloc kmalloc align16
kcalloc_wraps = refl

cleared : (kcalloc 2 4 some_used).1.region 39 ≡ 0
unfolding kcalloc kmalloc clear_bytes
cleared = refl

nothing_freed : kfree 32 some_used ≡ some_used
unfolding kfree
nothing_freed = refl

empty-IsValid : IsValid empty
empty-IsValid = omega arith

kmalloc_all-InOrder_example :
    InOrder 0 (kmalloc_all (5 ∷ 20 ∷ []) empty).0 (kmalloc_all (5 ∷ 20 ∷ []) empty).1.heap_ptr
    × IsValid (kmalloc_all (5 ∷ 20 ∷ []) empty).1
kmalloc_all-InOrder_example = kmalloc_all-InOrder (5 ∷ 20 ∷ []) empty empty-IsValid (omega arith)

-- The pointer moves from 32 back to 0, and the block of 5 bytes overlaps the first ones.
back_to_0 : (kmalloc 5 (kmalloc (2 ^ 64 - 32) some_used).1).0 ≡ some 0
unfolding kmalloc align16
back_to_0 = refl

kmalloc_wraps_example :
    ((kmalloc (2 ^ 64 - 32) some_used).0 ≡ some 32)
    × IsValid (kmalloc (2 ^ 64 - 32) some_used).1
    × ((q : ℕ) × ((kmalloc 5 (kmalloc (2 ^ 64 - 32) some_used).1).0 ≡ some q)
        × (q ≤ 32)
        × (q < 32 + (2 ^ 64 - 32)))
kmalloc_wraps_example =
    kmalloc_wraps some_used (2 ^ 64 - 32) 5 (omega arith) (omega arith) (omega arith) (omega arith)
